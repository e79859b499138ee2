-- ===== src/Wire/Maps.antt =====
-- The objects that the encoder builds, and when.
use guyos.Prelude.{
  ℕ, ◌≤◌, ◌≡◌, Option, none, some, ok, arith, length, Option-cases, inl, inr, bind-ok, ap, ◌∙◌,
}
use guyos.Text.{Text, lit}
use guyos.Crates.{Crates}
use guyos.Crates.Json.{JsonValue, object}
use guyos.Attach.{Attach, AttachAck, u31_max}
use guyos.Wire.{Publish, PublishAck, WireChatMessage, seq_to_wire}
use guyos.Wire.Encode.{
  put_string, put_number, put_string_opt, put_timestamp_opt, put_keepalive_opt, encode_attach,
  encode_attach_ack, encode_publish, encode_publish_ack, encode_chat_message,
}

module _ (X : Crates) where
  abbrev pub attach_map : Attach → X.Map
  attach_map a =
      put_string X
        (put_number X
          (put_number X (put_string X X.new_map (lit "type") (lit "attach")) (lit "protocol_major")
            a.protocol_major)
          (lit "protocol_minor") a.protocol_minor)
        (lit "ticket") a.ticket

  abbrev pub ack_map : AttachAck → X.Map
  ack_map a =
      put_number X
        (put_number X
          (put_number X
            (put_number X
              (put_string X (put_string X X.new_map (lit "type") (lit "attach_ack")) (lit "room_id")
                a.room_id)
              (lit "max_frame_bytes") a.max_frame_bytes)
            (lit "max_message_bytes") a.max_message_bytes)
          (lit "protocol_major") a.protocol_major)
        (lit "server_protocol_minor") a.server_protocol_minor

  abbrev pub publish_map : Publish X → X.Map
  publish_map p =
      put_string X
        (put_string X (put_string X X.new_map (lit "type") (lit "publish"))
          (lit "client_message_id") (X.uuid_to_string p.client_message_id))
        (lit "text") p.text

  abbrev pub publish_ack_map : PublishAck X → X.Map
  publish_ack_map p =
      put_string X
        (put_string X (put_string X X.new_map (lit "type") (lit "publish_ack"))
          (lit "client_message_id") (X.uuid_to_string p.client_message_id))
        (lit "seq") (seq_to_wire p.seq)

  abbrev pub chat_map : WireChatMessage X → X.Map
  chat_map c =
      put_string_opt X
        (put_string X
          (put_string X
            (put_string X (put_string X X.new_map (lit "type") (lit "chat_message")) (lit "seq")
              (seq_to_wire c.seq))
            (lit "client_message_id") (X.uuid_to_string c.client_message_id))
          (lit "text") c.text)
        (lit "sender_endpoint_id") c.sender_endpoint_id

  -- The optional timestamp, as it is written.
  abbrev pub timestamp_map : X.Map → Option Text → X.Map
  timestamp_map m none = m
  timestamp_map m (some s) = put_string X m (lit "server_timestamp") s

  abbrev pub keepalive_map : X.Map → Option ℕ → X.Map
  keepalive_map m none = m
  keepalive_map m (some k) = put_number X m (lit "keepalive_interval_seconds") k

  pub encode_attach_inv :
      (a : Attach) (v : JsonValue X.types)
      → encode_attach X a ≡ ok v
      → (v ≡ object (attach_map a)) × (a.protocol_major ≤ u31_max) × (a.protocol_minor ≤ u31_max)
  unfolding encode_attach
  encode_attach_inv a v h = ground arith

  -- The texts that stand for a timestamp.
  abbrev pub Written : Option X.OffsetDateTime → Option Text → Type 0
  Written none none = Unit
  Written (some ts) (some s) = X.format ts ≡ some s
  Written ts s = ⊥

  pub put_timestamp_opt_inv :
      (m m' : X.Map) (ts : Option X.OffsetDateTime)
      → put_timestamp_opt X m ts ≡ ok m'
      → (s : Option Text) × Written ts s × (m' ≡ timestamp_map m s)
  unfolding put_timestamp_opt
  put_timestamp_opt_inv m m' none h = (none, tt, ground arith)
  put_timestamp_opt_inv m m' (some ts) h = elim (Option-cases (X.format ts)) [
    | inl e ↦ absurd (ground arith)
    | inr (s, e) ↦ (some s, e, ground arith)
  ]

  abbrev pub KeepaliveFits : Option ℕ → Type 0
  KeepaliveFits none = Unit
  KeepaliveFits (some k) = k ≤ u31_max

  put_keepalive_opt_inv :
      (m m' : X.Map) (k : Option ℕ)
      → put_keepalive_opt X m k ≡ ok m'
      → (m' ≡ keepalive_map m k) × KeepaliveFits k
  unfolding put_keepalive_opt
  put_keepalive_opt_inv m m' none h = (ground arith, tt)
  put_keepalive_opt_inv m m' (some k) h = ground arith

  ack_checks :
      (a : AttachAck) (v : JsonValue X.types)
      → encode_attach_ack X a ≡ ok v
      → (m : X.Map) × (put_keepalive_opt X (ack_map a) a.keepalive_interval_seconds ≡ ok m)
        × (v ≡ object m)
        × (a.protocol_major ≤ u31_max)
        × (a.server_protocol_minor ≤ u31_max)
  unfolding encode_attach_ack
  ack_checks a v h = ground arith

  pub encode_attach_ack_inv :
      (a : AttachAck) (v : JsonValue X.types)
      → encode_attach_ack X a ≡ ok v
      → (v ≡ object (keepalive_map (ack_map a) a.keepalive_interval_seconds))
        × (a.protocol_major ≤ u31_max)
        × (a.server_protocol_minor ≤ u31_max)
        × KeepaliveFits a.keepalive_interval_seconds
  encode_attach_ack_inv a v h =
      let (m, put, v_eq, major, minor) = ack_checks a v h in
      let (m_eq, fits) = put_keepalive_opt_inv (ack_map a) m a.keepalive_interval_seconds put in
      (v_eq ∙ ap object m_eq, major, minor, fits)

  pub encode_publish_inv :
      (p : Publish X) (max : ℕ) (v : JsonValue X.types)
      → encode_publish X p max ≡ ok v
      → (v ≡ object (publish_map p)) × (length p.text ≤ max)
  unfolding encode_publish
  encode_publish_inv p max v h = ground arith

  pub encode_publish_ack_inv :
      (p : PublishAck X) (v : JsonValue X.types)
      → encode_publish_ack X p ≡ ok v
      → (s : Option Text) × Written p.server_timestamp s
        × (v ≡ object (timestamp_map (publish_ack_map p) s))
  unfolding encode_publish_ack
  encode_publish_ack_inv p v h =
      let (m, put, done) =
        bind-ok (put_timestamp_opt X (publish_ack_map p) p.server_timestamp) _ h in
      let (s, w, m_eq) = put_timestamp_opt_inv (publish_ack_map p) m p.server_timestamp put in
      (s, w, ground (arith, done, m_eq))

  chat_checks :
      (c : WireChatMessage X) (max : ℕ) (v : JsonValue X.types)
      → encode_chat_message X c max ≡ ok v
      → (m : X.Map) × (put_timestamp_opt X (chat_map c) c.server_timestamp ≡ ok m)
        × (v ≡ object m)
        × (length c.text ≤ max)
  unfolding encode_chat_message
  chat_checks c max v h = ground arith

  pub encode_chat_message_inv :
      (c : WireChatMessage X) (max : ℕ) (v : JsonValue X.types)
      → encode_chat_message X c max ≡ ok v
      → (s : Option Text) × Written c.server_timestamp s
        × (v ≡ object (timestamp_map (chat_map c) s))
        × (length c.text ≤ max)
  encode_chat_message_inv c max v h =
      let (m, put, v_eq, fits) = chat_checks c max v h in
      let (s, w, m_eq) = put_timestamp_opt_inv (chat_map c) m c.server_timestamp put in
      (s, w, v_eq ∙ ap object m_eq, fits)
