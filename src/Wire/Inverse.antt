-- ===== src/Wire/Inverse.antt =====
-- The codec of guyos_core/src/domain/guyos_wire_v1.rs as a whole: what the encoder writes is read back.
use guyos.Prelude.{ℕ, ◌<◌, ◌^◌, ◌≡◌, ap, ◌∙◌, ok, arith}
use guyos.Crates.{Crates}
use guyos.Crates.Json.{JsonValue}
use guyos.Wire.{
  GuyosWireV1Message, attach, attach_ack, publish, publish_ack, chat_message, detach, keepalive,
  error, ErrorEnvelope,
}
use guyos.Wire.Encode.{encode_to_value_with_limits, encode_error}
use guyos.Wire.Decode.{decode_value}
use guyos.Wire.Maps.{
  encode_attach_inv, encode_attach_ack_inv, encode_publish_inv, encode_publish_ack_inv,
  encode_chat_message_inv,
}
use guyos.Wire.RoundTrip.{
  decode-attach_map, decode-ack_map, decode-publish_map, decode-publish_ack_map, decode-chat_map,
  decode_detach_map, decode_keepalive_map, decode-error_map,
}

module _ (X : Crates) where
  -- The numbers of the message have the sizes of their fields: `u32` limits and `u64` sequence numbers.
  abbrev pub HasFieldSizes : GuyosWireV1Message X → Type 0
  HasFieldSizes (attach_ack a) = (a.max_frame_bytes < 2 ^ 32) × (a.max_message_bytes < 2 ^ 32)
  HasFieldSizes (publish_ack p) = p.seq < 2 ^ 64
  HasFieldSizes (chat_message c) = c.seq < 2 ^ 64
  HasFieldSizes m = Unit

  decode_encoded_error :
      (e : ErrorEnvelope X) (v : JsonValue X.types)
      → encode_error X e ≡ ok v
      → decode_value X v ≡ ok (error e)
  unfolding encode_error
  decode_encoded_error e v h =
      ap (decode_value X) (ground arith) ∙ decode-error_map X e.code e.message e.details

  -- A message that the encoder takes comes back from the value that the encoder builds for it.
  pub decode_value-encode :
      (msg : GuyosWireV1Message X) (max_message_bytes : ℕ) (v : JsonValue X.types)
      → HasFieldSizes msg
      → encode_to_value_with_limits X msg max_message_bytes ≡ ok v
      → decode_value X v ≡ ok msg
  unfolding encode_to_value_with_limits
  decode_value-encode (attach a) max v s h =
      let (e, major, minor) = encode_attach_inv X a v h in
      ap (decode_value X) e ∙ decode-attach_map X a major minor
  decode_value-encode (attach_ack a) max v s h =
      let (e, major, minor, fits) = encode_attach_ack_inv X a v h in
      ap (decode_value X) e
      ∙ decode-ack_map X a.room_id a.max_frame_bytes a.max_message_bytes a.protocol_major
          a.server_protocol_minor s.0 s.1 major minor a.keepalive_interval_seconds fits
  decode_value-encode (publish p) max v s h =
      ap (decode_value X) (encode_publish_inv X p max v h).0 ∙ decode-publish_map X p
  decode_value-encode (publish_ack p) max v s h =
      let (ts, w, e) = encode_publish_ack_inv X p v h in
      ap (decode_value X) e
      ∙ decode-publish_ack_map X p.seq p.client_message_id p.server_timestamp ts s w
  decode_value-encode (chat_message c) max v s h =
      let (ts, w, e, fits) = encode_chat_message_inv X c max v h in
      ap (decode_value X) e
      ∙ decode-chat_map X c.seq c.client_message_id c.text c.sender_endpoint_id c.server_timestamp
          ts s w
  decode_value-encode detach max v s h = ap (decode_value X) (ground arith) ∙ decode_detach_map X
  decode_value-encode keepalive max v s h =
      ap (decode_value X) (ground arith) ∙ decode_keepalive_map X
  decode_value-encode (error e) max v s h = decode_encoded_error e v h
