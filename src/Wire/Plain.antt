-- ===== src/Wire/Plain.antt =====
-- The values that the encoder builds are plain: no number but `u32`s, and a few objects deep.
use guyos.Prelude.{
  ℕ, ◌≤◌, ◌<◌, ◌^◌, ◌≡◌, sym, Option, none, some, ok, arith, Bool-cases, inl, inr, true, subst,
}
use guyos.Text.{Text, lit, text_eq}
use guyos.Crates.{Crates}
use guyos.Crates.Json.{JsonValue, IsPlain, number, string, object}
use guyos.Attach.{u31_max, Attach, AttachAck}
use guyos.Wire.{
  GuyosWireV1Message, attach, attach_ack, publish, publish_ack, chat_message, detach, keepalive,
  error, ErrorEnvelope, Publish, PublishAck, WireChatMessage,
}
use guyos.Wire.Encode.{
  put_string, put_number, put_string_opt, put_details_opt, encode_to_value_with_limits,
  encode_error, error_object,
}
use guyos.Wire.Maps.{
  attach_map, ack_map, publish_map, publish_ack_map, chat_map, timestamp_map, keepalive_map,
  KeepaliveFits, encode_attach_inv, encode_attach_ack_inv, encode_publish_inv,
  encode_publish_ack_inv, encode_chat_message_inv,
}
use guyos.Wire.Inverse.{HasFieldSizes}

module _ (X : Crates) where
  -- Every entry of the object is plain.
  abbrev PlainMap : ℕ → X.Map → Type 0
  PlainMap depth m =
      (k : Text) (v : JsonValue X.types) → X.get m k ≡ some v → IsPlain X.types depth v

  plain_new : (depth : ℕ) → PlainMap depth X.new_map
  plain_new depth k v h = absurd (ground (arith, X.get-new_map k))

  plain_insert :
      (depth : ℕ) (m : X.Map) (k : Text) (w : JsonValue X.types)
      → PlainMap depth m
      → IsPlain X.types depth w
      → PlainMap depth (X.insert m k w)
  plain_insert depth m k w plain p j v h = elim (Bool-cases (text_eq k j)) [
    | inl t ↦ subst (λ x. IsPlain X.types depth x) (entry t h) p
    | inr f ↦ plain j v (ground (arith, X.get-insert m k j w))
  ]
    where
      entry : text_eq k j ≡ true → X.get (X.insert m k w) j ≡ some v → w ≡ v
      entry t h = ground (arith, X.get-insert m k j w)

  plain_string :
      (depth : ℕ) (m : X.Map) (k s : Text) → PlainMap depth m → PlainMap depth (put_string X m k s)
  plain_string depth m k s plain = plain_insert depth m k (string s) plain (plain_text depth s)
    where
      plain_text : (depth : ℕ) (s : Text) → IsPlain X.types depth (string s)
      plain_text depth s = tt

  plain_number :
      (depth : ℕ) (m : X.Map) (k : Text) (n : ℕ)
      → n < 2 ^ 32
      → PlainMap depth m
      → PlainMap depth (put_number X m k n)
  plain_number depth m k n h plain =
      plain_insert depth m k (number (X.from_u32 n)) plain (plain_u32 depth)
    where
      plain_u32 : (depth : ℕ) → IsPlain X.types depth (number (X.from_u32 n))
      plain_u32 depth = (n, X.as_u64-from_u32 n h)

  plain_timestamp :
      (depth : ℕ) (m : X.Map) (s : Option Text)
      → PlainMap depth m
      → PlainMap depth (timestamp_map X m s)
  plain_timestamp depth m none plain = plain
  plain_timestamp depth m (some s) plain = plain_string depth m (lit "server_timestamp") s plain

  plain_sender :
      (depth : ℕ) (m : X.Map) (k : Text) (s : Option Text)
      → PlainMap depth m
      → PlainMap depth (put_string_opt X m k s)
  unfolding put_string_opt
  plain_sender depth m k none plain = plain
  plain_sender depth m k (some s) plain = plain_string depth m k s plain

  plain_keepalive :
      (depth : ℕ) (m : X.Map) (k : Option ℕ)
      → KeepaliveFits X k
      → PlainMap depth m
      → PlainMap depth (keepalive_map X m k)
  plain_keepalive depth m none fits plain = plain
  plain_keepalive depth m (some k) fits plain =
      plain_number depth m (lit "keepalive_interval_seconds") k (omega arith) plain

  plain_attach :
      (depth : ℕ) (a : Attach)
      → a.protocol_major ≤ u31_max
      → a.protocol_minor ≤ u31_max
      → PlainMap depth (attach_map X a)
  plain_attach depth a major minor = plain_string depth _ _ _ (
      plain_number depth _ _ _ (omega arith)
        (plain_number depth _ _ _ (omega arith) (plain_string depth _ _ _ (plain_new depth))))

  plain_ack :
      (depth : ℕ) (a : AttachAck)
      → HasFieldSizes X (attach_ack a)
      → a.protocol_major ≤ u31_max
      → a.server_protocol_minor ≤ u31_max
      → PlainMap depth (ack_map X a)
  plain_ack depth a s major minor = plain_number depth _ _ _ (omega arith) (
      plain_number depth _ _ _ (omega arith) (
        plain_number depth _ _ _ s.1 (
          plain_number depth _ _ _ s.0
            (plain_string depth _ _ _ (plain_string depth _ _ _ (plain_new depth))))))

  plain_publish : (depth : ℕ) (p : Publish X) → PlainMap depth (publish_map X p)
  plain_publish depth p =
      plain_string depth _ _ _
        (plain_string depth _ _ _ (plain_string depth _ _ _ (plain_new depth)))

  plain_publish_ack : (depth : ℕ) (p : PublishAck X) → PlainMap depth (publish_ack_map X p)
  plain_publish_ack depth p =
      plain_string depth _ _ _
        (plain_string depth _ _ _ (plain_string depth _ _ _ (plain_new depth)))

  plain_chat : (depth : ℕ) (c : WireChatMessage X) → PlainMap depth (chat_map X c)
  plain_chat depth c = plain_sender depth _ _ _ (
      plain_string depth _ _ _ (
        plain_string depth _ _ _
          (plain_string depth _ _ _ (plain_string depth _ _ _ (plain_new depth)))))

  abbrev Shallow : Option X.Map → Type 0
  Shallow none = Unit
  Shallow (some d) = PlainMap 124 d

  -- The details of an error hold no number but `u64`s, and their arrays and objects leave room for the two
  -- objects around them.
  abbrev pub HasShallowDetails : GuyosWireV1Message X → Type 0
  HasShallowDetails (error e) = Shallow e.details
  HasShallowDetails m = Unit

  plain_details :
      (m : X.Map) (d : Option X.Map)
      → Shallow d
      → PlainMap 125 m
      → PlainMap 125 (put_details_opt X m d)
  unfolding put_details_opt
  plain_details m none s plain = plain
  plain_details m (some d) s plain = plain_insert 125 m (lit "details") (object d) plain s

  plain_error_object :
      (e : ErrorEnvelope X) → HasShallowDetails (error e) → PlainMap 125 (error_object X e)
  unfolding error_object
  plain_error_object e s =
      plain_details _ e.details s (plain_string 125 _ _ _ (plain_string 125 _ _ _ (plain_new 125)))

  IsPlain-error :
      (e : ErrorEnvelope X) (v : JsonValue X.types)
      → HasShallowDetails (error e)
      → encode_error X e ≡ ok v
      → IsPlain X.types 127 v
  unfolding encode_error
  IsPlain-error e v s h =
      subst (λ x. IsPlain X.types 127 x) (built h)
        (plain_insert 126 (put_string X X.new_map (lit "type") (lit "error")) (lit "error")
          (object (error_object X e)) (plain_string 126 _ _ _ (plain_new 126))
          (plain_error_object e s))
    where
      built :
          encode_error X e ≡ ok v
          → object (
              X.insert
                (put_string X X.new_map (lit "type") (lit "error"))
                (lit "error")
                (object (error_object X e)))
            ≡ v
      built h = ground arith

  IsPlain-built :
      (m : X.Map) (v : JsonValue X.types) → v ≡ object m → PlainMap 126 m → IsPlain X.types 127 v
  IsPlain-built m v e plain = subst (λ x. IsPlain X.types 127 x) (sym e) plain

  pub encode-IsPlain :
      (msg : GuyosWireV1Message X) (max_message_bytes : ℕ) (v : JsonValue X.types)
      → HasFieldSizes X msg
      → HasShallowDetails msg
      → encode_to_value_with_limits X msg max_message_bytes ≡ ok v
      → IsPlain X.types 127 v
  unfolding encode_to_value_with_limits
  encode-IsPlain (attach a) max v s d h =
      let (e, major, minor) = encode_attach_inv X a v h in
      IsPlain-built _ v e (plain_attach 126 a major minor)
  encode-IsPlain (attach_ack a) max v s d h =
      let (e, major, minor, fits) = encode_attach_ack_inv X a v h in
      IsPlain-built _ v e
        (plain_keepalive 126 _ a.keepalive_interval_seconds fits (plain_ack 126 a s major minor))
  encode-IsPlain (publish p) max v s d h =
      IsPlain-built _ v (encode_publish_inv X p max v h).0 (plain_publish 126 p)
  encode-IsPlain (publish_ack p) max v s d h =
      let (ts, w, e) = encode_publish_ack_inv X p v h in
      IsPlain-built _ v e (plain_timestamp 126 _ ts (plain_publish_ack 126 p))
  encode-IsPlain (chat_message c) max v s d h =
      let (ts, w, e, fits) = encode_chat_message_inv X c max v h in
      IsPlain-built _ v e (plain_timestamp 126 _ ts (plain_chat 126 c))
  encode-IsPlain detach max v s d h =
      IsPlain-built (put_string X X.new_map (lit "type") (lit "detach")) v (ground arith)
        (plain_string 126 _ _ _ (plain_new 126))
  encode-IsPlain keepalive max v s d h =
      IsPlain-built (put_string X X.new_map (lit "type") (lit "keepalive")) v (ground arith)
        (plain_string 126 _ _ _ (plain_new 126))
  encode-IsPlain (error e) max v s d h = IsPlain-error e v d h
