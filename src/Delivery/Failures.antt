-- ===== src/Delivery/Failures.antt =====
-- What the peer of a hub sees of a failed read.
use guyos.Prelude.{
  ◌≡◌, refl, sym, ap, ◌∙◌, true, Option, none, some, [], ◌∷◌, ◌++◌, Result, ok, err,
}
use guyos.Text.{Text, lit}
use guyos.Text.Utf8.{is_utf8}
use guyos.Text.Decimal.{to_decimal}
use guyos.Crates.{Crates}
use guyos.Framing.{GuyosWireV1SessionError, frame_too_large, unexpected_eof, invalid_utf8, io}
use guyos.Session.{FakeGuyosWireV1Session, ready, write_application_frame, after_drop}
use guyos.Wire.{GuyosWireV1Message, error, max_frame_bytes_adr_v1, max_message_bytes_adr_v1}
use guyos.Wire.Encode.{encode_guyos_wire_v1_json, encode_guyos_wire_v1_json_within_limits}
use guyos.Hub.{
  encoded, ok_option, wire_error_json_body_for_session_read_failure,
  hub_try_send_wire_error_for_session_read_failure,
}
use guyos.Delivery.{Receives}
use guyos.Delivery.Messages.{Writes-Receives}

some-inj : {A : Type 0} {a b : A} → Path (Option A) (some a) (some b) → a ≡ b
some-inj h = cc

module _ (X : Crates) where
  -- The portable code and the text of a failed read; the other failures are not reported.
  abbrev pub reported : GuyosWireV1SessionError → Option (Text × Text)
  reported (frame_too_large declared limit) = some (
    lit "frame_too_large",
    lit "Declared F1 payload length "
        ++ (to_decimal declared
            ++ (lit " exceeds max_frame_bytes limit " ++ (to_decimal limit ++ lit "."))),
  )
  reported invalid_utf8 = some (lit "malformed_json", lit "F1 frame payload is not valid UTF-8.")
  reported unexpected_eof = none
  reported (io e) = none

  abbrev pub report : Text → Text → GuyosWireV1Message X
  report code message = error (record { code = code; message = message; details = none })

  ok_option_inv : {A E : Type 0} (r : Result A E) (a : A) → ok_option X r ≡ some a → r ≡ ok a
  ok_option_inv (ok b) a h = cc
  ok_option_inv (err e) a h = cc

  encoded_inv :
      (code message body : Text)
      → encoded X (report code message) ≡ some body
      → encode_guyos_wire_v1_json_within_limits X
          (report code message)
          max_frame_bytes_adr_v1
          max_message_bytes_adr_v1
        ≡ ok body
  unfolding encode_guyos_wire_v1_json
  encoded_inv code message body h = ok_option_inv _ body h

  -- The body of a failure that is reported.
  body_reported :
      (e : GuyosWireV1SessionError) (code message : Text)
      → reported e ≡ some (code, message)
      → wire_error_json_body_for_session_read_failure X e ≡ encoded X (report code message)
  unfolding wire_error_json_body_for_session_read_failure
  body_reported (frame_too_large declared limit) code message h =
      ap (λ o. encoded X (report o.0 o.1)) (some-inj h)
  body_reported invalid_utf8 code message h = ap (λ o. encoded X (report o.0 o.1)) (some-inj h)
  body_reported unexpected_eof code message h = cc
  body_reported (io e) code message h = cc

  try_send_body :
      (h : FakeGuyosWireV1Session) (e : GuyosWireV1SessionError) (body : Text)
      → wire_error_json_body_for_session_read_failure X e ≡ some body
      → hub_try_send_wire_error_for_session_read_failure X h e ≡ (write_application_frame h body).1
  unfolding hub_try_send_wire_error_for_session_read_failure
  try_send_body h e body b = rw (hub_try_send_wire_error_for_session_read_failure, b) refl

  -- After a read that failed for the size of a frame or for its bytes, a hub that had sent
  -- nothing sends one message: when its text could be encoded, is UTF-8 and is written with
  -- success, a peer with the same limit and nothing buffered reads and decodes an error with the
  -- portable code of the failure, and then the end of the stream.
  pub hub_try_send-Receives :
      (h c : FakeGuyosWireV1Session) (e : GuyosWireV1SessionError) (code message body : Text)
      → reported e ≡ some (code, message)
      → wire_error_json_body_for_session_read_failure X e ≡ some body
      → is_utf8 body ≡ true
      → h.tx.queue ≡ []
      → c.decoder.buf ≡ []
      → c.decoder.max_frame_bytes ≡ h.max_frame_bytes
      → (write_application_frame h body).0 ≡ ready (ok tt)
      → Receives X
          (after_drop (hub_try_send_wire_error_for_session_read_failure X h e) c)
          (report code message ∷ [])
  hub_try_send-Receives h c e code message body r b valid fresh empty same written =
      Writes-Receives X h (hub_try_send_wire_error_for_session_read_failure X h e) c
        max_frame_bytes_adr_v1 max_message_bytes_adr_v1 (report code message ∷ []) (body ∷ []) fresh
        empty same ((tt, tt), tt)
        (
          body,
          [],
          refl,
          encoded_inv code message body (sym (body_reported e code message r) ∙ b),
          refl,
        )
        (valid, tt) (written, sym (try_send_body h e body b))
