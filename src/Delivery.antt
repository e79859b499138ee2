-- ===== src/Delivery.antt =====
-- Wire messages over a session: guyos_core/src/domain/guyos_wire_v1.rs on
-- guyos_core/src/ports/outbound/fake_guyos_wire_v1_session.rs, and the errors that
-- guyos_core/src/ports/outbound/guyos_wire_v1_session.rs sends after a failed read.
pub mod Messages
pub mod Failures
pub mod Hosting
mod Tests
use guyos.Prelude.{ℕ, ◌≡◌, Option, none, some, List, [], ◌∷◌, ok}
use guyos.Text.{Text}
use guyos.Crates.{Crates}
use guyos.Session.{FakeGuyosWireV1Session, ready, read_application_frame}
use guyos.Wire.{GuyosWireV1Message}
use guyos.Wire.Encode.{encode_guyos_wire_v1_json_within_limits}
use guyos.Wire.Decode.{decode_guyos_wire_v1_json}

module _ (X : Crates) where
  -- The texts are those of the messages, under these limits.
  abbrev pub Encodes : ℕ → ℕ → List (GuyosWireV1Message X) → List Text → Type 0
  Encodes max_frame max_message [] texts = texts ≡ []
  Encodes max_frame max_message (msg ∷ msgs) texts =
      (s : Text) × (more : List Text) × (texts ≡ s ∷ more)
      × (encode_guyos_wire_v1_json_within_limits X msg max_frame max_message ≡ ok s)
      × Encodes max_frame max_message msgs more

  -- The reads of `s` return texts that decode to these messages in turn, and then the end of the stream.
  abbrev pub Receives : FakeGuyosWireV1Session → List (GuyosWireV1Message X) → Type 0
  Receives s [] = (read_application_frame s).0 ≡ ready (ok none)
  Receives s (msg ∷ msgs) =
      (text : Text) × ((read_application_frame s).0 ≡ ready (ok (some text)))
      × (decode_guyos_wire_v1_json X text ≡ ok msg)
      × Receives (read_application_frame s).1 msgs
