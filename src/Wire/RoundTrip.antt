-- ===== src/Wire/RoundTrip.antt =====
-- Decoding what the encoder wrote gives the message back.
use guyos.Prelude.{ltb, false, ◌-◌, ℕ, ◌≤◌, ◌<◌, ◌^◌, ◌≡◌, refl, Option, none, some, ok, arith}
use guyos.Text.{Text, lit, text_eq, text_eq_refl}
use guyos.Crates.{Crates}
use guyos.Crates.Json.{string, object}
use guyos.Attach.{Attach, AttachAck, u31_max}
use guyos.Attach.Fields.{attach_from_fields}
use guyos.Wire.{
  Publish, PublishAck, WireChatMessage, ErrorEnvelope, attach, attach_ack, publish, publish_ack,
  chat_message, detach, keepalive, error, seq_to_wire,
}
use guyos.Wire.Seq.{parse_seq_wire, parse_seq_wire_iff}
use guyos.Wire.Encode.{put_string_opt, error_object}
use guyos.Wire.Decode.{
  require_string, parse_uuid_canonical, require_seq, parse_optional_rfc3339, endpoint_of,
  require_u32, keepalive_of, decode_value, decode_attach, decode_attach_ack, require_u31,
  decode_publish, decode_publish_ack, decode_chat_message, decode_detach, decode_keepalive,
  decode_error_message,
}
use guyos.Wire.Maps.{
  attach_map, ack_map, publish_map, publish_ack_map, chat_map, timestamp_map, keepalive_map,
  Written, KeepaliveFits,
}

module _ (X : Crates) where
  pub decode-attach_map :
      (a : Attach)
      → a.protocol_major ≤ u31_max
      → a.protocol_minor ≤ u31_max
      → decode_value X (object (attach_map X a)) ≡ ok (attach a)
  unfolding decode_value decode_attach lit text_eq
  decode-attach_map a h k = simp X.get-insert (
      rw (
        attach_from_fields X.json (attach_map X a) a (simp X.get-insert) (simp X.get-insert)
          (simp X.get-insert) h k))

  pub decode-publish_map :
      (p : Publish X) → decode_value X (object (publish_map X p)) ≡ ok (publish p)
  unfolding decode_value decode_publish lit text_eq
  decode-publish_map p = simp (X.get-insert, X.parse_str-to_string, text_eq_refl)

  seq_read : (n : ℕ) → n < 2 ^ 64 → parse_seq_wire (seq_to_wire n) ≡ ok n
  seq_read n h = (parse_seq_wire_iff (seq_to_wire n) n).1 (refl, h)

  pub decode-publish_ack_map :
      (n : ℕ) (u : X.Uuid) (ts : Option X.OffsetDateTime) (s : Option Text)
      → n < 2 ^ 64
      → Written X ts s
      → let p : PublishAck X = record { seq = n; client_message_id = u; server_timestamp = ts } in
        decode_value X (object (timestamp_map X (publish_ack_map X p) s)) ≡ ok (publish_ack p)
  unfolding decode_value decode_publish_ack require_string parse_uuid_canonical require_seq
      parse_optional_rfc3339 lit text_eq
  decode-publish_ack_map n u none none h w =
      simp (X.get-insert, X.get-new_map, X.parse_str-to_string, text_eq_refl, seq_read n h)
  decode-publish_ack_map n u none (some s) h w = elim w [ ]
  decode-publish_ack_map n u (some t) none h w = elim w [ ]
  decode-publish_ack_map n u (some t) (some s) h w =
      simp (X.get-insert, X.parse_str-to_string, text_eq_refl, seq_read n h, X.parse-format t s w)

  pub decode-chat_map :
      (n : ℕ) (u : X.Uuid) (text : Text) (sender : Option Text) (ts : Option X.OffsetDateTime)
      (s : Option Text)
      → n < 2 ^ 64
      → Written X ts s
      → let c : WireChatMessage X = record {
        seq = n;
        client_message_id = u;
        text = text;
        sender_endpoint_id = sender;
        server_timestamp = ts;
      } in
        decode_value X (object (timestamp_map X (chat_map X c) s)) ≡ ok (chat_message c)
  unfolding decode_value decode_chat_message require_string parse_uuid_canonical require_seq
      parse_optional_rfc3339 endpoint_of put_string_opt lit text_eq
  decode-chat_map n u text none none none h w =
      simp (X.get-insert, X.get-new_map, X.parse_str-to_string, text_eq_refl, seq_read n h)
  decode-chat_map n u text (some e) none none h w =
      simp (X.get-insert, X.get-new_map, X.parse_str-to_string, text_eq_refl, seq_read n h)
  decode-chat_map n u text sender none (some s) h w = elim w [ ]
  decode-chat_map n u text sender (some t) none h w = elim w [ ]
  decode-chat_map n u text none (some t) (some s) h w = simp (
    X.get-insert,
    X.get-new_map,
    X.parse_str-to_string,
    text_eq_refl,
    seq_read n h,
    X.parse-format t s w,
  )
  decode-chat_map n u text (some e) (some t) (some s) h w =
      simp (X.get-insert, X.parse_str-to_string, text_eq_refl, seq_read n h, X.parse-format t s w)

  u32_in : (n : ℕ) → n < 2 ^ 32 → ltb (2 ^ 32 - 1) n ≡ false
  u32_in n h = ground arith

  u31_in : (n : ℕ) → n ≤ u31_max → ltb u31_max n ≡ false
  u31_in n h = ground arith

  -- A number of 31 bits is below `2 ^ 32`.
  u31_u32 : (n : ℕ) → n ≤ u31_max → n < 2 ^ 32
  u31_u32 n h = omega arith

  -- What the type `u32` of the fields says, and what the encoder checks.
  module _ (room : Text) (frame message major minor : ℕ) (h_frame : frame < 2 ^ 32)
      (h_message : message < 2 ^ 32) (h_major : major ≤ u31_max) (h_minor : minor ≤ u31_max) where
    abbrev ack : Option ℕ → AttachAck
    ack interval = record {
      room_id = room;
      max_frame_bytes = frame;
      max_message_bytes = message;
      protocol_major = major;
      server_protocol_minor = minor;
      keepalive_interval_seconds = interval;
    }

    pub decode-ack_map :
        (interval : Option ℕ)
        → KeepaliveFits X interval
        → decode_value X (object (keepalive_map X (ack_map X (ack interval)) interval))
          ≡ ok (attach_ack (ack interval))
    unfolding decode_value decode_attach_ack require_string require_u32 require_u31 keepalive_of lit
        text_eq
    decode-ack_map none fits = simp (
      X.get-insert,
      X.get-new_map,
      X.as_u64-from_u32 frame h_frame,
      X.as_u64-from_u32 message h_message,
      X.as_u64-from_u32 major (u31_u32 major h_major),
      X.as_u64-from_u32 minor (u31_u32 minor h_minor),
      u32_in frame h_frame,
      u32_in message h_message,
      u32_in major (u31_u32 major h_major),
      u32_in minor (u31_u32 minor h_minor),
      u31_in major h_major,
      u31_in minor h_minor,
    )
    decode-ack_map (some k) fits = simp (
      X.get-insert,
      X.as_u64-from_u32 frame h_frame,
      X.as_u64-from_u32 message h_message,
      X.as_u64-from_u32 major (u31_u32 major h_major),
      X.as_u64-from_u32 minor (u31_u32 minor h_minor),
      X.as_u64-from_u32 k (u31_u32 k fits),
      u32_in frame h_frame,
      u32_in message h_message,
      u32_in major (u31_u32 major h_major),
      u32_in minor (u31_u32 minor h_minor),
      u32_in k (u31_u32 k fits),
      u31_in major h_major,
      u31_in minor h_minor,
      u31_in k fits,
    )

  pub decode-error_map :
      (code message : Text) (details : Option X.Map)
      → let e : ErrorEnvelope X = record { code = code; message = message; details = details } in
        decode_value X (
          object (
            X.insert
              (X.insert X.new_map (lit "type") (string (lit "error")))
              (lit "error")
              (object (error_object X e))))
        ≡ ok (error e)
  unfolding decode_value decode_error_message error_object lit text_eq
  decode-error_map code message none = simp (X.get-insert, X.get-new_map)
  decode-error_map code message (some d) = simp X.get-insert

  pub decode_detach_map :
      decode_value X (object (X.insert X.new_map (lit "type") (string (lit "detach")))) ≡ ok detach
  unfolding decode_value decode_detach lit text_eq
  decode_detach_map = simp X.get-insert

  pub decode_keepalive_map :
      decode_value X (object (X.insert X.new_map (lit "type") (string (lit "keepalive"))))
      ≡ ok keepalive
  unfolding decode_value decode_keepalive lit text_eq
  decode_keepalive_map = simp X.get-insert
