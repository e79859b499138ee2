-- ===== src/Wire/Decode.antt =====
-- The decoder of guyos_core/src/domain/guyos_wire_v1.rs.
use guyos.Prelude.{
  ℕ, ◌^◌, ◌-◌, not, Option, none, some, ok, err, ◌>>=◌, ◌>>◌, fail_if, ok_or, map_err, ltb,
  if◌then◌else◌,
}
use guyos.Text.{Text, lit, text_eq}
use guyos.Crates.{Crates}
use guyos.Crates.Json.{JsonValue, null, number, string, object}
use guyos.Attach.{attach_from_decoded_map}
use guyos.Wire.{
  GuyosWireV1Message, attach, attach_ack, publish, publish_ack, chat_message, detach, keepalive,
  error, malformed_json, unknown_message_type, invalid_attach, invalid_client_message_id, Decoded,
  validate_u31_generic,
}
use guyos.Wire.Seq.{parse_seq_wire}

module _ (X : Crates) where
  unfoldable pub parse_uuid_canonical : Text → Decoded X.Uuid
  parse_uuid_canonical raw = do
    u ← ok_or (invalid_client_message_id raw) (X.parse_str raw)
    fail_if (not (text_eq raw (X.uuid_to_string u))) (invalid_client_message_id raw)
    ok u

  -- A field by what `map.get(key)` finds.
  unfoldable pub seq_of : Option (JsonValue X.types) → Decoded ℕ
  seq_of (some (string s)) = parse_seq_wire s
  seq_of _ = err malformed_json

  unfoldable pub require_seq : X.Map → Text → Decoded ℕ
  unfolding seq_of
  require_seq map key = seq_of (X.get map key)

  unfoldable pub string_of : Option (JsonValue X.types) → Decoded Text
  string_of (some (string s)) = ok s
  string_of _ = err malformed_json

  unfoldable pub require_string : X.Map → Text → Decoded Text
  unfolding string_of
  require_string map key = string_of (X.get map key)

  unfoldable pub u32_of : Option (JsonValue X.types) → Decoded ℕ
  u32_of (some (number n)) = do
    v ← ok_or malformed_json (X.as_u64 n)
    fail_if (ltb (2 ^ 32 - 1) v) malformed_json
    ok v
  u32_of _ = err malformed_json

  unfoldable pub require_u32 : X.Map → Text → Decoded ℕ
  unfolding u32_of
  require_u32 map key = u32_of (X.get map key)

  unfoldable pub require_u31 : X.Map → Text → Decoded ℕ
  unfolding require_u32 validate_u31_generic
  require_u31 map key = do v ← require_u32 map key; validate_u31_generic v; ok v

  unfoldable pub rfc3339_of : Option (JsonValue X.types) → Decoded (Option X.OffsetDateTime)
  rfc3339_of none = ok none
  rfc3339_of (some null) = ok none
  rfc3339_of (some (string s)) = do ts ← ok_or malformed_json (X.parse s); ok (some ts)
  rfc3339_of _ = err malformed_json

  unfoldable pub parse_optional_rfc3339 : X.Map → Text → Decoded (Option X.OffsetDateTime)
  unfolding rfc3339_of
  parse_optional_rfc3339 map key = rfc3339_of (X.get map key)

  unfoldable pub decode_attach : X.Map → Decoded (GuyosWireV1Message X)
  decode_attach map = do
    a ← map_err (λ _. invalid_attach) (attach_from_decoded_map X.types map)
    ok (attach a)

  -- `keepalive_interval_seconds`: absent or null, or a number of 31 bits.
  unfoldable pub keepalive_of : X.Map → Option (JsonValue X.types) → Decoded (Option ℕ)
  unfolding require_u31
  keepalive_of map none = ok none
  keepalive_of map (some null) = ok none
  keepalive_of map (some v) = do k ← require_u31 map (lit "keepalive_interval_seconds"); ok (some k)

  unfoldable pub decode_attach_ack : X.Map → Decoded (GuyosWireV1Message X)
  decode_attach_ack map = do
    room_id ← require_string map (lit "room_id")
    max_frame ← require_u32 map (lit "max_frame_bytes")
    max_message ← require_u32 map (lit "max_message_bytes")
    major ← require_u31 map (lit "protocol_major")
    minor ← require_u31 map (lit "server_protocol_minor")
    interval ← keepalive_of map (X.get map (lit "keepalive_interval_seconds"))
    ok (
        attach_ack (record {
          room_id = room_id;
          max_frame_bytes = max_frame;
          max_message_bytes = max_message;
          protocol_major = major;
          server_protocol_minor = minor;
          keepalive_interval_seconds = interval;
        }))

  unfoldable pub decode_publish : X.Map → Decoded (GuyosWireV1Message X)
  unfolding require_string parse_uuid_canonical
  decode_publish map = do
    raw_id ← require_string map (lit "client_message_id")
    id ← parse_uuid_canonical raw_id
    text ← require_string map (lit "text")
    ok (publish (record { client_message_id = id; text = text }))

  unfoldable pub decode_publish_ack : X.Map → Decoded (GuyosWireV1Message X)
  decode_publish_ack map = do
    raw_id ← require_string map (lit "client_message_id")
    id ← parse_uuid_canonical raw_id
    seq ← require_seq map (lit "seq")
    ts ← parse_optional_rfc3339 map (lit "server_timestamp")
    ok (publish_ack (record { seq = seq; client_message_id = id; server_timestamp = ts }))

  unfoldable pub endpoint_of : Option (JsonValue X.types) → Decoded (Option Text)
  endpoint_of none = ok none
  endpoint_of (some null) = ok none
  endpoint_of (some (string s)) = ok (some s)
  endpoint_of _ = err malformed_json

  unfoldable pub decode_chat_message : X.Map → Decoded (GuyosWireV1Message X)
  decode_chat_message map = do
    seq ← require_seq map (lit "seq")
    raw_id ← require_string map (lit "client_message_id")
    id ← parse_uuid_canonical raw_id
    text ← require_string map (lit "text")
    sender ← endpoint_of (X.get map (lit "sender_endpoint_id"))
    ts ← parse_optional_rfc3339 map (lit "server_timestamp")
    ok (
        chat_message (record {
          seq = seq;
          client_message_id = id;
          text = text;
          sender_endpoint_id = sender;
          server_timestamp = ts;
        }))

  unfoldable pub decode_detach : X.Map → Decoded (GuyosWireV1Message X)
  decode_detach map = ok detach

  unfoldable pub decode_keepalive : X.Map → Decoded (GuyosWireV1Message X)
  decode_keepalive map = ok keepalive

  unfoldable pub object_of : Option (JsonValue X.types) → Decoded X.Map
  object_of (some (object o)) = ok o
  object_of _ = err malformed_json

  unfoldable pub details_of : Option (JsonValue X.types) → Decoded (Option X.Map)
  details_of none = ok none
  details_of (some null) = ok none
  details_of (some (object o)) = ok (some o)
  details_of _ = err malformed_json

  unfoldable pub decode_error_message : X.Map → Decoded (GuyosWireV1Message X)
  unfolding object_of string_of details_of
  decode_error_message map = do
    err_map ← object_of (X.get map (lit "error"))
    code ← string_of (X.get err_map (lit "code"))
    message ← string_of (X.get err_map (lit "message"))
    details ← details_of (X.get err_map (lit "details"))
    ok (error (record { code = code; message = message; details = details }))

  -- `match t`.
  unfoldable pub decode_by_type : Text → X.Map → Decoded (GuyosWireV1Message X)
  decode_by_type t map =
      if text_eq t (lit "attach")
      then decode_attach map
      else if text_eq t (lit "attach_ack")
      then decode_attach_ack map
      else if text_eq t (lit "publish")
      then decode_publish map
      else if text_eq t (lit "publish_ack")
      then decode_publish_ack map
      else if text_eq t (lit "chat_message")
      then decode_chat_message map
      else if text_eq t (lit "detach")
      then decode_detach map
      else if text_eq t (lit "keepalive")
      then decode_keepalive map
      else if text_eq t (lit "error")
      then decode_error_message map
      else err (unknown_message_type (some t))

  unfoldable pub type_of : Option (JsonValue X.types) → Decoded Text
  type_of (some (string s)) = ok s
  type_of (some v) = err malformed_json
  type_of none = err (unknown_message_type none)

  unfoldable pub decode_value : JsonValue X.types → Decoded (GuyosWireV1Message X)
  unfolding type_of decode_by_type
  decode_value (object map) = do t ← type_of (X.get map (lit "type")); decode_by_type t map
  decode_value _ = err malformed_json

  unfoldable pub decode_guyos_wire_v1_json : Text → Decoded (GuyosWireV1Message X)
  unfolding decode_value
  decode_guyos_wire_v1_json text = do v ← ok_or malformed_json (X.from_str text); decode_value v
