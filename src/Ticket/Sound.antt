-- ===== src/Ticket/Sound.antt =====
-- The hub accepts nothing but the issuer's own text for a room and an expiry.
use guyos.Prelude.{
  err, if◌then◌else◌, ℕ, ◌^◌, ◌<◌, ◌≤◌, ◌≡◌, ◌⊎◌, ◌++◌, ◌∷◌, ok, length, arith, All, ap, sym, ◌∙◌,
  some, All-append_left, All-append_right, ◌==◌,
}
use guyos.Text.{Bytes, Text, IsByte}
use guyos.Text.Word.{from_be_bytes, u64_to_be_bytes-from_be_bytes}
use guyos.Crates.Crypto.{CryptoCrates}
use guyos.Crates.Ids.{UuidCrate}
use guyos.Ticket.{
  ticket_decode_failed, hmac_sha256, ticket_body, encode_reference_v1, check_binary,
  decode_reference_v1, version_v1,
}
use guyos.Ticket.Shape.{binary_parts}
use guyos.Ticket.RoundTrip.{check_binary_parts, verdict}

module _ (C : CryptoCrates) (U : UuidCrate) where
  -- What a successful decoding has passed: the decoding, the length test and the checks.
  decode_steps :
      (text : Text) (k_mac : Bytes) (now : ℕ) (room_id : Text)
      → decode_reference_v1 C U text k_mac now ≡ ok room_id
      → (s : Bytes) × (C.base64_decode text ≡ some s)
        × (length s ≡ 57)
        × (check_binary C U s k_mac now ≡ ok room_id)
  unfolding decode_reference_v1
  decode_steps text k_mac now room_id h = ground arith

  verdict_ok :
      (v : ℕ) (room expires sig k_mac : Bytes) (now : ℕ) (room_id : Text)
      → (if v == version_v1
          then verdict C U room expires sig k_mac now
          else err ticket_decode_failed)
        ≡ ok room_id
      → (v ≡ version_v1)
        × (sig ≡ hmac_sha256 C k_mac (version_v1 ∷ (room ++ expires)))
        × (room_id ≡ U.uuid_to_string (U.from_bytes room))
        × ((from_be_bytes expires ≡ 0) ⊎ (now ≤ from_be_bytes expires))
  verdict_ok v room expires sig k_mac now room_id h =
      ground (arith, C.ct_eq_iff sig (hmac_sha256 C k_mac (version_v1 ∷ (room ++ expires))))

  -- An accepted text is the issuer's own text for a room of 16 bytes and an expiry, under the
  -- hub's key; the result is that room, and the expiry is 0 or has not passed.
  pub decode_sound :
      (text : Text) (k_mac : Bytes) (now : ℕ) (room_id : Text)
      → decode_reference_v1 C U text k_mac now ≡ ok room_id
      → (room : Bytes) × (expires_unix : ℕ) × (length room ≡ 16)
        × All IsByte room
        × (expires_unix < 2 ^ 64)
        × (text ≡ encode_reference_v1 C k_mac room expires_unix)
        × (room_id ≡ U.uuid_to_string (U.from_bytes room))
        × ((expires_unix ≡ 0) ⊎ (now ≤ expires_unix))
  unfolding encode_reference_v1
  decode_sound text k_mac now room_id h =
      let (s, d, len, checks) = decode_steps text k_mac now room_id h in
      let (v, room, expires, sig, whole, r, e, sl) = binary_parts s len in
      let (ver, mac, id, time) = verdict_ok v room expires sig k_mac now room_id (
        sym (check_binary_parts C U v room expires sig k_mac now r e sl)
        ∙ ap (λ t. check_binary C U t k_mac now) (sym whole)
        ∙ checks) in
      let bytes : All IsByte ((v ∷ (room ++ expires)) ++ sig) =
        rw whole at (C.decode-IsByte text s d) in
      let body_bytes : All IsByte (v ∷ (room ++ expires)) =
        All-append_left IsByte (v ∷ (room ++ expires)) sig bytes in
      let exp_bytes : All IsByte expires = All-append_right IsByte (v ∷ room) expires body_bytes in
      let (back, u64) = u64_to_be_bytes-from_be_bytes expires e exp_bytes in
      let same : (v ∷ (room ++ expires)) ++ sig
          ≡ ticket_body C room (from_be_bytes expires)
            ++ hmac_sha256 C k_mac (ticket_body C room (from_be_bytes expires)) =
        unfold ticket_body in rw (back, mac, ver) in
      (
        room,
        from_be_bytes expires,
        r,
        All-append_left IsByte room expires body_bytes.1,
        u64,
        sym (C.encode-decode text s d) ∙ ap C.base64_encode (whole ∙ same),
        id,
        time,
      )
