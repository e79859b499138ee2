-- ===== src/Wire/Ranges.antt =====
-- The decoder's numbers are within the ranges of the protocol.
use guyos.Prelude.{
  sym, ◌⊎◌, ℕ, ◌≤◌, ◌<◌, ◌^◌, ◌≡◌, Option, none, some, ok, arith, bind-ok, ok_or, subst, ok-inj,
}
use guyos.Text.{Text, lit}
use guyos.Crates.{Crates}
use guyos.Crates.Json.{JsonValue, null, bool, number, string, array, object}
use guyos.Attach.{u31_max, AttachAck, Attach, attach_from_decoded_map}
use guyos.Wire.{
  GuyosWireV1Message, PublishAck, WireChatMessage, publish, chat_message, attach, attach_ack,
  publish_ack, detach, keepalive, error,
}
use guyos.Wire.Seq.{parse_seq_wire_iff}
use guyos.Wire.Decode.{
  require_string, parse_uuid_canonical, parse_optional_rfc3339, endpoint_of, seq_of, require_seq,
  require_u32, require_u31, keepalive_of, decode_attach, decode_attach_ack, decode_publish,
  decode_publish_ack, decode_chat_message, decode_detach, decode_keepalive, decode_error_message,
  decode_by_type, type_of, decode_value, decode_guyos_wire_v1_json,
}
use guyos.Wire.Maps.{KeepaliveFits}

module _ (X : Crates) where
  -- The ranges that the protocol gives to the numbers of a message.
  abbrev pub InProtocolRange : GuyosWireV1Message X → Type 0
  InProtocolRange (attach a) = (a.protocol_major ≤ u31_max) × (a.protocol_minor ≤ u31_max)
  InProtocolRange (attach_ack a) =
      (a.max_frame_bytes < 2 ^ 32)
      × (a.max_message_bytes < 2 ^ 32)
      × (a.protocol_major ≤ u31_max)
      × (a.server_protocol_minor ≤ u31_max)
      × KeepaliveFits X a.keepalive_interval_seconds
  InProtocolRange (publish_ack p) = p.seq < 2 ^ 64
  InProtocolRange (chat_message c) = c.seq < 2 ^ 64
  InProtocolRange m = Unit

  seq_bound : (o : Option (JsonValue X.types)) (n : ℕ) → seq_of X o ≡ ok n → n < 2 ^ 64
  unfolding seq_of
  seq_bound none n h = absurd (ground arith)
  seq_bound (some (string s)) n h = ((parse_seq_wire_iff s n).0 h).1
  seq_bound (some null) n h = absurd (ground arith)
  seq_bound (some (bool b)) n h = absurd (ground arith)
  seq_bound (some (number k)) n h = absurd (ground arith)
  seq_bound (some (array a)) n h = absurd (ground arith)
  seq_bound (some (object o)) n h = absurd (ground arith)

  require_seq_bound : (m : X.Map) (key : Text) (n : ℕ) → require_seq X m key ≡ ok n → n < 2 ^ 64
  unfolding require_seq
  require_seq_bound m key n h = seq_bound (X.get m key) n h

  require_u32_bound : (m : X.Map) (key : Text) (n : ℕ) → require_u32 X m key ≡ ok n → n < 2 ^ 32
  unfolding require_u32
  require_u32_bound m key n h = ground arith

  require_u31_bound : (m : X.Map) (key : Text) (n : ℕ) → require_u31 X m key ≡ ok n → n ≤ u31_max
  unfolding require_u31
  require_u31_bound m key n h = ground arith

  keepalive_bound :
      (m : X.Map) (o : Option (JsonValue X.types)) (k : Option ℕ)
      → keepalive_of X m o ≡ ok k
      → KeepaliveFits X k
  unfolding keepalive_of
  keepalive_bound m o none h = tt
  keepalive_bound m o (some k) h = ground arith

  decode_attach_ack_inv :
      (m : X.Map) (msg : GuyosWireV1Message X)
      → decode_attach_ack X m ≡ ok msg
      → (a : AttachAck) × (msg ≡ attach_ack a)
        × (require_u32 X m (lit "max_frame_bytes") ≡ ok a.max_frame_bytes)
        × (require_u32 X m (lit "max_message_bytes") ≡ ok a.max_message_bytes)
        × (require_u31 X m (lit "protocol_major") ≡ ok a.protocol_major)
        × (require_u31 X m (lit "server_protocol_minor") ≡ ok a.server_protocol_minor)
        × (keepalive_of X m (X.get m (lit "keepalive_interval_seconds"))
            ≡ ok a.keepalive_interval_seconds)
  unfolding decode_attach_ack
  decode_attach_ack_inv m msg h = ground arith

  decode_attach_inv :
      (m : X.Map) (msg : GuyosWireV1Message X)
      → decode_attach X m ≡ ok msg
      → (a : Attach) × (msg ≡ attach a) × (attach_from_decoded_map X.types m ≡ ok a)
  unfolding decode_attach
  decode_attach_inv m msg h = ground arith

  attach_from_range :
      (m : X.Map) (a : Attach)
      → attach_from_decoded_map X.types m ≡ ok a
      → (a.protocol_major ≤ u31_max) × (a.protocol_minor ≤ u31_max)
  unfolding attach_from_decoded_map
  attach_from_range m a h = ground arith

  decode_attach_range :
      (m : X.Map) (msg : GuyosWireV1Message X) → decode_attach X m ≡ ok msg → InProtocolRange msg
  decode_attach_range m msg h =
      let (a, e, read) = decode_attach_inv m msg h in
      subst (λ x. InProtocolRange x) (sym e) (attach_from_range m a read)

  decode_attach_ack_range :
      (m : X.Map) (msg : GuyosWireV1Message X)
      → decode_attach_ack X m ≡ ok msg
      → InProtocolRange msg
  decode_attach_ack_range m msg h =
      let (a, e, frame, message, major, minor, interval) = decode_attach_ack_inv m msg h in
      subst (λ x. InProtocolRange x) (sym e)
        (
          require_u32_bound m _ a.max_frame_bytes frame,
          require_u32_bound m _ a.max_message_bytes message,
          require_u31_bound m _ a.protocol_major major,
          require_u31_bound m _ a.server_protocol_minor minor,
          keepalive_bound m _ a.keepalive_interval_seconds interval,
        )

  decode_publish_ack_range :
      (m : X.Map) (msg : GuyosWireV1Message X)
      → decode_publish_ack X m ≡ ok msg
      → InProtocolRange msg
  unfolding decode_publish_ack
  decode_publish_ack_range m msg h =
      let (raw, e1, h1) = bind-ok (require_string X m (lit "client_message_id")) _ h in
      let (id, e2, h2) = bind-ok (parse_uuid_canonical X raw) _ h1 in
      let (seq, e3, h3) = bind-ok (require_seq X m (lit "seq")) _ h2 in
      let (ts, e4, h4) = bind-ok (parse_optional_rfc3339 X m (lit "server_timestamp")) _ h3 in
      let p : PublishAck X = record { seq = seq; client_message_id = id; server_timestamp = ts } in
      subst (λ x. InProtocolRange x) {x = publish_ack p} (ok-inj h4)
        (require_seq_bound m (lit "seq") seq e3)

  decode_chat_message_range :
      (m : X.Map) (msg : GuyosWireV1Message X)
      → decode_chat_message X m ≡ ok msg
      → InProtocolRange msg
  unfolding decode_chat_message
  decode_chat_message_range m msg h =
      let (seq, e1, h1) = bind-ok (require_seq X m (lit "seq")) _ h in
      let (raw, e2, h2) = bind-ok (require_string X m (lit "client_message_id")) _ h1 in
      let (id, e3, h3) = bind-ok (parse_uuid_canonical X raw) _ h2 in
      let (text, e4, h4) = bind-ok (require_string X m (lit "text")) _ h3 in
      let (sender, e5, h5) = bind-ok (endpoint_of X (X.get m (lit "sender_endpoint_id"))) _ h4 in
      let (ts, e6, h6) = bind-ok (parse_optional_rfc3339 X m (lit "server_timestamp")) _ h5 in
      let c : WireChatMessage X = record {
        seq = seq;
        client_message_id = id;
        text = text;
        sender_endpoint_id = sender;
        server_timestamp = ts;
      } in
      subst (λ x. InProtocolRange x) {x = chat_message c} (ok-inj h6)
        (require_seq_bound m (lit "seq") seq e1)

  decode_other_range :
      (m : X.Map) (msg : GuyosWireV1Message X)
      → (decode_publish X m ≡ ok msg)
        ⊎ (decode_detach X m ≡ ok msg)
        ⊎ (decode_keepalive X m ≡ ok msg)
        ⊎ (decode_error_message X m ≡ ok msg)
      → InProtocolRange msg
  unfolding decode_publish decode_detach decode_keepalive decode_error_message
  decode_other_range m (attach a) h = absurd (ground arith)
  decode_other_range m (attach_ack a) h = absurd (ground arith)
  decode_other_range m (publish p) h = tt
  decode_other_range m (publish_ack p) h = absurd (ground arith)
  decode_other_range m (chat_message c) h = absurd (ground arith)
  decode_other_range m detach h = tt
  decode_other_range m keepalive h = tt
  decode_other_range m (error e) h = tt

  decode_by_type_range :
      (t : Text) (m : X.Map) (msg : GuyosWireV1Message X)
      → decode_by_type X t m ≡ ok msg
      → InProtocolRange msg
  unfolding decode_by_type
  decode_by_type_range t m msg h = ground (
    arith,
    decode_attach_range m msg,
    decode_attach_ack_range m msg,
    decode_publish_ack_range m msg,
    decode_chat_message_range m msg,
    decode_other_range m msg,
  )

  decode_value_range :
      (v : JsonValue X.types) (msg : GuyosWireV1Message X)
      → decode_value X v ≡ ok msg
      → InProtocolRange msg
  unfolding decode_value
  decode_value_range (object m) msg h =
      let (t, e, k) = bind-ok (type_of X (X.get m (lit "type"))) _ h in
      decode_by_type_range t m msg k
  decode_value_range null msg h = absurd (ground arith)
  decode_value_range (bool b) msg h = absurd (ground arith)
  decode_value_range (number n) msg h = absurd (ground arith)
  decode_value_range (string s) msg h = absurd (ground arith)
  decode_value_range (array a) msg h = absurd (ground arith)

  -- Whatever text a peer sends, a decoded message has its numbers in the ranges of the protocol:
  -- versions and keepalive of 31 bits, limits of 32 bits, sequence numbers of 64 bits.
  pub decode_json-InProtocolRange :
      (s : Text) (msg : GuyosWireV1Message X)
      → decode_guyos_wire_v1_json X s ≡ ok msg
      → InProtocolRange msg
  unfolding decode_guyos_wire_v1_json
  decode_json-InProtocolRange s msg h =
      let (v, e, k) = bind-ok (ok_or _ (X.from_str s)) _ h in decode_value_range v msg k
