-- ===== src/Wire/Json.antt =====
-- The text level of the codec of guyos_core/src/domain/guyos_wire_v1.rs and its two limits.
use guyos.Prelude.{ℕ, ◌≤◌, ◌≡◌, refl, ◌∙◌, Option, none, some, ok, arith, length}
use guyos.Text.{Text}
use guyos.Crates.{Crates}
use guyos.Crates.Json.{JsonValue}
use guyos.Wire.{
  GuyosWireV1Message, publish, chat_message, attach, attach_ack, publish_ack, detach, keepalive,
  error,
}
use guyos.Wire.Encode.{encode_to_value_with_limits, encode_guyos_wire_v1_json_within_limits}
use guyos.Wire.Decode.{decode_value, decode_guyos_wire_v1_json}
use guyos.Wire.Maps.{encode_publish_inv, encode_chat_message_inv}
use guyos.Wire.Inverse.{HasFieldSizes, decode_value-encode}
use guyos.Wire.Plain.{HasShallowDetails, encode-IsPlain}

module _ (X : Crates) where
  encode_json_inv :
      (msg : GuyosWireV1Message X) (max_frame max_message : ℕ) (s : Text)
      → encode_guyos_wire_v1_json_within_limits X msg max_frame max_message ≡ ok s
      → (v : JsonValue X.types) × (encode_to_value_with_limits X msg max_message ≡ ok v)
        × (X.to_string v ≡ some s)
        × (length s ≤ max_frame)
  unfolding encode_guyos_wire_v1_json_within_limits
  encode_json_inv msg max_frame max_message s h = ground arith

  decode_json_value :
      (s : Text) (v : JsonValue X.types)
      → X.from_str s ≡ some v
      → decode_guyos_wire_v1_json X s ≡ decode_value X v
  unfolding decode_guyos_wire_v1_json
  decode_json_value s v e = rw e refl

  -- The JSON text of a message decodes to that message, under any limits with which it was
  -- encoded, when its numbers fit their fields, and the details of an error hold no number but
  -- those that a `u64` reads and at most 125 arrays and objects inside one another, the details
  -- themselves included.
  pub decode_json-encode_json :
      (msg : GuyosWireV1Message X) (max_frame max_message : ℕ) (s : Text)
      → HasFieldSizes X msg
      → HasShallowDetails X msg
      → encode_guyos_wire_v1_json_within_limits X msg max_frame max_message ≡ ok s
      → decode_guyos_wire_v1_json X s ≡ ok msg
  decode_json-encode_json msg max_frame max_message s sizes shallow h =
      let (v, built, printed, fits) = encode_json_inv msg max_frame max_message s h in
      decode_json_value s v
        (X.from_str-to_string v s (encode-IsPlain X msg max_message v sizes shallow built) printed)
      ∙ decode_value-encode X msg max_message v sizes built

  -- The text that a message carries for the room.
  abbrev pub text_of : GuyosWireV1Message X → Option Text
  text_of (publish p) = some p.text
  text_of (chat_message c) = some c.text
  text_of m = none

  abbrev Within : ℕ → Option Text → Type 0
  Within n none = Unit
  Within n (some t) = length t ≤ n

  value-Within :
      (msg : GuyosWireV1Message X) (max_message : ℕ) (v : JsonValue X.types)
      → encode_to_value_with_limits X msg max_message ≡ ok v
      → Within max_message (text_of msg)
  unfolding encode_to_value_with_limits
  value-Within (attach a) max v h = tt
  value-Within (attach_ack a) max v h = tt
  value-Within (publish p) max v h = (encode_publish_inv X p max v h).1
  value-Within (publish_ack p) max v h = tt
  value-Within (chat_message c) max v h =
      let (s, w, e, fits) = encode_chat_message_inv X c max v h in fits
  value-Within detach max v h = tt
  value-Within keepalive max v h = tt
  value-Within (error e) max v h = tt

  -- What the encoder returns keeps both limits: the JSON text has at most `max_frame_bytes`
  -- bytes, and a chat text in it at most `max_message_bytes`.
  pub encode_json-Within :
      (msg : GuyosWireV1Message X) (max_frame max_message : ℕ) (s : Text)
      → encode_guyos_wire_v1_json_within_limits X msg max_frame max_message ≡ ok s
      → (length s ≤ max_frame) × Within max_message (text_of msg)
  encode_json-Within msg max_frame max_message s h =
      let (v, built, printed, fits) = encode_json_inv msg max_frame max_message s h in
      (fits, value-Within msg max_message v built)
