-- ===== src/Delivery/Messages.antt =====
-- Messages from one end of a session to the other.
use guyos.Prelude.{ℕ, ◌≡◌, subst, true, List, [], ◌∷◌, All}
use guyos.Text.{Text}
use guyos.Text.Utf8.{is_utf8}
use guyos.Crates.{Crates}
use guyos.Session.{FakeGuyosWireV1Session, read_application_frame, after_drop}
use guyos.Session.Stream.{Delivers}
use guyos.Session.Pair.{Writes, reads_what_was_written}
use guyos.Wire.{GuyosWireV1Message}
use guyos.Wire.Inverse.{HasFieldSizes}
use guyos.Wire.Plain.{HasShallowDetails}
use guyos.Wire.Json.{decode_json-encode_json}
use guyos.Delivery.{Encodes, Receives}

module _ (X : Crates) where
  -- A message whose text is read back.
  abbrev pub IsSound : GuyosWireV1Message X → Type 0
  IsSound msg = HasFieldSizes X msg × HasShallowDetails X msg

  pub Receives-Delivers :
      (s : FakeGuyosWireV1Session) (max_frame max_message : ℕ) (msgs : List (GuyosWireV1Message X))
      (texts : List Text)
      → All IsSound msgs
      → Encodes X max_frame max_message msgs texts
      → Delivers s texts
      → Receives X s msgs
  Receives-Delivers s max_frame max_message [] texts sound e h = subst (Delivers s) e h
  Receives-Delivers s max_frame max_message (msg ∷ msgs) texts (sound, sounds)
        (t, more, e, encoded, later) h =
      let (answer, rest) = subst (Delivers s) e h in
      (
        t,
        answer,
        decode_json-encode_json X msg max_frame max_message t sound.0 sound.1 encoded,
        Receives-Delivers (read_application_frame s).1 max_frame max_message msgs more sounds later
            rest,
      )

  -- Messages that one end of a session has encoded, under any limits, and written, each write
  -- with success, are the messages that the other end reads and decodes, in order and each once,
  -- before the end of the stream. The writer had sent nothing before, the reader has the same
  -- limit and nothing buffered, the texts are UTF-8, the numbers of the messages fit their
  -- fields, and the details of an error hold no number but those that a `u64` reads and at most
  -- 125 arrays and objects inside one another, the details themselves included.
  pub Writes-Receives :
      (a a' b : FakeGuyosWireV1Session) (max_frame max_message : ℕ)
      (msgs : List (GuyosWireV1Message X)) (texts : List Text)
      → a.tx.queue ≡ []
      → b.decoder.buf ≡ []
      → b.decoder.max_frame_bytes ≡ a.max_frame_bytes
      → All IsSound msgs
      → Encodes X max_frame max_message msgs texts
      → All (λ t. is_utf8 t ≡ true) texts
      → Writes a texts a'
      → Receives X (after_drop a' b) msgs
  Writes-Receives a a' b max_frame max_message msgs texts fresh empty same sound encoded valid
        written =
      Receives-Delivers (after_drop a' b) max_frame max_message msgs texts sound encoded
        (reads_what_was_written a a' b texts fresh empty same valid written)
