-- ===== src/Wire/Encode.antt =====
-- The encoder of guyos_core/src/domain/guyos_wire_v1.rs.
use guyos.Prelude.{ℕ, Option, none, some, ok, ◌>>=◌, ◌>>◌, fail_if, ok_or, map_err, length, ltb}
use guyos.Text.{Text, lit}
use guyos.Crates.{Crates}
use guyos.Crates.Json.{JsonValue, number, string, object}
use guyos.Attach.{Attach, AttachAck, validate_attach_preamble}
use guyos.Wire.{
  Publish, PublishAck, WireChatMessage, ErrorEnvelope, GuyosWireV1Message, attach, attach_ack,
  publish, publish_ack, chat_message, detach, keepalive, error, malformed_json, invalid_attach,
  json_body_too_large, Decoded, validate_u31_generic, validate_text_len, uuid_wire_string,
  format_rfc3339_ts, seq_to_wire, max_frame_bytes_adr_v1, max_message_bytes_adr_v1,
}

module _ (X : Crates) where
  -- `m.insert(key.into(), Value::String(s))` and `m.insert(key.into(), Value::Number(n.into()))`.
  abbrev pub put_string : X.Map → Text → Text → X.Map
  put_string m key s = X.insert m key (string s)

  abbrev pub put_number : X.Map → Text → ℕ → X.Map
  put_number m key n = X.insert m key (number (X.from_u32 n))

  -- `if let Some(s) = o { m.insert(key.into(), Value::String(s)); }`
  unfoldable pub put_string_opt : X.Map → Text → Option Text → X.Map
  put_string_opt m key none = m
  put_string_opt m key (some s) = put_string m key s

  -- The same with `format_rfc3339_ts(ts)?` for the value.
  unfoldable pub put_timestamp_opt : X.Map → Option X.OffsetDateTime → Decoded X.Map
  unfolding format_rfc3339_ts
  put_timestamp_opt m none = ok m
  put_timestamp_opt m (some ts) = do
    s ← format_rfc3339_ts X ts
    ok (put_string m (lit "server_timestamp") s)

  unfoldable pub put_keepalive_opt : X.Map → Option ℕ → Decoded X.Map
  unfolding validate_u31_generic
  put_keepalive_opt m none = ok m
  put_keepalive_opt m (some k) = do
    validate_u31_generic k
    ok (put_number m (lit "keepalive_interval_seconds") k)

  unfoldable pub encode_attach : Attach → Decoded (JsonValue X.types)
  unfolding validate_attach_preamble
  encode_attach a = do
    map_err (λ _. invalid_attach) (validate_attach_preamble a)
    let m0 = put_string X.new_map (lit "type") (lit "attach")
    let m1 = put_number m0 (lit "protocol_major") a.protocol_major
    let m2 = put_number m1 (lit "protocol_minor") a.protocol_minor
    ok (object (put_string m2 (lit "ticket") a.ticket))

  unfoldable pub encode_attach_ack : AttachAck → Decoded (JsonValue X.types)
  unfolding validate_u31_generic
  encode_attach_ack a = do
    validate_u31_generic a.protocol_major
    validate_u31_generic a.server_protocol_minor
    let m0 = put_string X.new_map (lit "type") (lit "attach_ack")
    let m1 = put_string m0 (lit "room_id") a.room_id
    let m2 = put_number m1 (lit "max_frame_bytes") a.max_frame_bytes
    let m3 = put_number m2 (lit "max_message_bytes") a.max_message_bytes
    let m4 = put_number m3 (lit "protocol_major") a.protocol_major
    let m5 = put_number m4 (lit "server_protocol_minor") a.server_protocol_minor
    m ← put_keepalive_opt m5 a.keepalive_interval_seconds
    ok (object m)

  unfoldable pub encode_publish : Publish X → ℕ → Decoded (JsonValue X.types)
  unfolding validate_text_len uuid_wire_string
  encode_publish p max_message_bytes = do
    validate_text_len p.text max_message_bytes
    let m0 = put_string X.new_map (lit "type") (lit "publish")
    let m1 = put_string m0 (lit "client_message_id") (uuid_wire_string X p.client_message_id)
    ok (object (put_string m1 (lit "text") p.text))

  unfoldable pub encode_publish_ack : PublishAck X → Decoded (JsonValue X.types)
  unfolding uuid_wire_string
  encode_publish_ack p = do
    let m0 = put_string X.new_map (lit "type") (lit "publish_ack")
    let m1 = put_string m0 (lit "client_message_id") (uuid_wire_string X p.client_message_id)
    let m2 = put_string m1 (lit "seq") (seq_to_wire p.seq)
    m ← put_timestamp_opt m2 p.server_timestamp
    ok (object m)

  unfoldable pub encode_chat_message : WireChatMessage X → ℕ → Decoded (JsonValue X.types)
  unfolding validate_text_len uuid_wire_string put_string_opt
  encode_chat_message c max_message_bytes = do
    validate_text_len c.text max_message_bytes
    let m0 = put_string X.new_map (lit "type") (lit "chat_message")
    let m1 = put_string m0 (lit "seq") (seq_to_wire c.seq)
    let m2 = put_string m1 (lit "client_message_id") (uuid_wire_string X c.client_message_id)
    let m3 = put_string m2 (lit "text") c.text
    let m4 = put_string_opt m3 (lit "sender_endpoint_id") c.sender_endpoint_id
    m ← put_timestamp_opt m4 c.server_timestamp
    ok (object m)

  -- `if let Some(ref d) = e.details { err_obj.insert("details", Value::Object(d.clone())); }`
  unfoldable pub put_details_opt : X.Map → Option X.Map → X.Map
  put_details_opt m none = m
  put_details_opt m (some d) = X.insert m (lit "details") (object d)

  unfoldable pub error_object : ErrorEnvelope X → X.Map
  unfolding put_details_opt
  error_object e =
      let m0 = put_string X.new_map (lit "code") e.code in
      let m1 = put_string m0 (lit "message") e.message in put_details_opt m1 e.details

  unfoldable pub encode_error : ErrorEnvelope X → Decoded (JsonValue X.types)
  encode_error e =
      let m0 = put_string X.new_map (lit "type") (lit "error") in
      ok (object (X.insert m0 (lit "error") (object (error_object e))))

  -- The arms of the `match`, each a function above.
  unfoldable pub encode_to_value_with_limits :
      GuyosWireV1Message X → ℕ → Decoded (JsonValue X.types)
  encode_to_value_with_limits (attach a) max_message_bytes = encode_attach a
  encode_to_value_with_limits (attach_ack a) max_message_bytes = encode_attach_ack a
  encode_to_value_with_limits (publish p) max_message_bytes = encode_publish p max_message_bytes
  encode_to_value_with_limits (publish_ack p) max_message_bytes = encode_publish_ack p
  encode_to_value_with_limits (chat_message c) max_message_bytes =
      encode_chat_message c max_message_bytes
  encode_to_value_with_limits detach max_message_bytes =
      ok (object (put_string X.new_map (lit "type") (lit "detach")))
  encode_to_value_with_limits keepalive max_message_bytes =
      ok (object (put_string X.new_map (lit "type") (lit "keepalive")))
  encode_to_value_with_limits (error e) max_message_bytes = encode_error e

  unfoldable pub encode_guyos_wire_v1_json_within_limits :
      GuyosWireV1Message X → ℕ → ℕ → Decoded Text
  encode_guyos_wire_v1_json_within_limits msg max_frame_bytes max_message_bytes = do
    v ← encode_to_value_with_limits msg max_message_bytes
    s ← ok_or malformed_json (X.to_string v)
    fail_if (ltb max_frame_bytes (length s)) (json_body_too_large (length s) max_frame_bytes)
    ok s

  unfoldable pub encode_guyos_wire_v1_json : GuyosWireV1Message X → Decoded Text
  unfolding encode_guyos_wire_v1_json_within_limits
  encode_guyos_wire_v1_json msg =
      encode_guyos_wire_v1_json_within_limits msg max_frame_bytes_adr_v1 max_message_bytes_adr_v1
