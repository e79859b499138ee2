-- ===== src/Wire.antt =====
-- guyos_core/src/domain/guyos_wire_v1.rs: the messages and the errors of the codec, and its small
-- validations and printers.
pub mod Encode
pub mod Decode
pub mod Seq
pub mod Maps
pub mod RoundTrip
pub mod Plain
pub mod Inverse
pub mod Json
pub mod Ranges
mod Tests
use guyos.Prelude.{
  ℕ, ◌+◌, ◌<◌, ◌≡◌, Option, none, some, Result, ok, err, ◌>>=◌, fail_if, ok_or, map_err, length,
  ltb, if◌then◌else◌, ◌++◌,
}
use guyos.Text.{Text, lit}
use guyos.Text.Decimal.{to_decimal}
use guyos.Crates.{Crates}
use guyos.Crates.Json.{JsonValue}
use guyos.Attach.{Attach, AttachAck, u31_max}

abbrev pub max_message_bytes_adr_v1 : ℕ
max_message_bytes_adr_v1 = 65_536

abbrev pub max_frame_bytes_adr_v1 : ℕ
max_frame_bytes_adr_v1 = 1_048_576

pub record Publish (X : Crates) : Type 0 where
  pub client_message_id : X.Uuid
  pub text : Text

pub record PublishAck (X : Crates) : Type 0 where
  pub seq : ℕ
  pub client_message_id : X.Uuid
  pub server_timestamp : Option X.OffsetDateTime

pub record WireChatMessage (X : Crates) : Type 0 where
  pub seq : ℕ
  pub client_message_id : X.Uuid
  pub text : Text
  pub sender_endpoint_id : Option Text
  pub server_timestamp : Option X.OffsetDateTime

pub record ErrorEnvelope (X : Crates) : Type 0 where
  pub code : Text
  pub message : Text
  pub details : Option X.Map

-- `Detach` and `Keepalive` carry nothing.
pub data GuyosWireV1Message (X : Crates) : Type 0 where
  attach : Attach → GuyosWireV1Message X
  attach_ack : AttachAck → GuyosWireV1Message X
  publish : Publish X → GuyosWireV1Message X
  publish_ack : PublishAck X → GuyosWireV1Message X
  chat_message : WireChatMessage X → GuyosWireV1Message X
  detach : GuyosWireV1Message X
  keepalive : GuyosWireV1Message X
  error : ErrorEnvelope X → GuyosWireV1Message X

-- The fields are `bytes` and `limit` where there are two, and the raw text where there is one.
pub data GuyosWireV1MessageError : Type 0 where
  malformed_json : GuyosWireV1MessageError
  unknown_message_type : Option Text → GuyosWireV1MessageError
  invalid_attach : GuyosWireV1MessageError
  message_too_large : ℕ → ℕ → GuyosWireV1MessageError
  json_body_too_large : ℕ → ℕ → GuyosWireV1MessageError
  invalid_client_message_id : Text → GuyosWireV1MessageError

abbrev pub Decoded : Type 0 → Type 0
Decoded A = Result A GuyosWireV1MessageError

unfoldable pub validate_u31_generic : ℕ → Decoded (Unit {0})
validate_u31_generic v = fail_if (ltb u31_max v) malformed_json

unfoldable pub validate_text_len : Text → ℕ → Decoded (Unit {0})
validate_text_len text max_message_bytes =
    let bytes = length text in
    fail_if (ltb max_message_bytes bytes) (message_too_large bytes max_message_bytes)

module _ (X : Crates) where
  unfoldable pub uuid_wire_string : X.Uuid → Text
  uuid_wire_string u = X.uuid_to_string u

  unfoldable pub format_rfc3339_ts : X.OffsetDateTime → Decoded Text
  format_rfc3339_ts ts = ok_or malformed_json (X.format ts)

  -- `impl fmt::Display for GuyosWireV1MessageError`.
  unfoldable pub fmt_message_error : GuyosWireV1MessageError → Text
  fmt_message_error malformed_json = lit "malformed_json: invalid UTF-8 JSON or not a JSON object"
  fmt_message_error (unknown_message_type (some t)) = lit "unknown_message_type: " ++ X.debug_str t
  fmt_message_error (unknown_message_type none) =
      lit "unknown_message_type: missing or invalid `type` field"
  fmt_message_error invalid_attach = lit "invalid_attach: attach payload failed semantic validation"
  fmt_message_error (message_too_large bytes limit) =
      lit "message_too_large: text is "
      ++ (to_decimal bytes ++ (lit " bytes (limit " ++ (to_decimal limit ++ lit ")")))
  fmt_message_error (json_body_too_large bytes limit) =
      lit "JSON body is "
      ++ (to_decimal bytes
          ++ (lit " bytes (max_frame_bytes limit " ++ (to_decimal limit ++ lit ")")))
  fmt_message_error (invalid_client_message_id raw) =
      lit "invalid_client_message_id: "
      ++ (X.debug_str raw ++ lit " is not a canonical UUID string")

unfoldable pub seq_to_wire : ℕ → Text
seq_to_wire seq = to_decimal seq
