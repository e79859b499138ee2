-- ===== src/Ticket/RoundTrip.antt =====
-- The hub reads the tickets that the issuer writes.
use guyos.Prelude.{
  ℕ, ◌^◌, ◌<◌, ◌≡◌, ◌≢◌, refl, false, not, ◌∷◌, ◌++◌, ok, err, length, arith, All, Bool-false,
  length-append, ◌∙◌, ltb, if◌then◌else◌, All-append, ◌==◌, Result, some,
}
use guyos.Text.{Bytes, Text, IsByte}
use guyos.Text.Word.{
  u64_to_be_bytes, from_be_bytes, length-u64_to_be_bytes, from_be_bytes-u64_to_be_bytes,
  u64_to_be_bytes-IsByte,
}
use guyos.Crates.Crypto.{CryptoCrates, IsBase64Url}
use guyos.Crates.Ids.{UuidCrate}
use guyos.Ticket.{
  ReferenceTicketError, ticket_decode_failed, invalid_ticket, version_v1, hmac_sha256, ticket_body,
  encode_reference_v1, is_base64url_byte, check_binary, decode_reference_v1,
}
use guyos.Ticket.Shape.{
  pad_strict_scan-alphabet, pad_strict_scan_refuses, slice-body, slice_sig, slice_expires,
  slice-room,
}

module _ (C : CryptoCrates) (U : UuidCrate) where
  -- The verdict on a binary with a good shape and version.
  abbrev pub verdict : Bytes → Bytes → Bytes → Bytes → ℕ → Result Text ReferenceTicketError
  verdict room expires sig k_mac now =
      if not (C.ct_eq sig (hmac_sha256 C k_mac (version_v1 ∷ (room ++ expires))))
      then err invalid_ticket
      else if not (from_be_bytes expires == 0)
      then (if ltb (from_be_bytes expires) now
          then err invalid_ticket
          else ok (U.uuid_to_string (U.from_bytes room)))
      else ok (U.uuid_to_string (U.from_bytes room))

  -- The whole decision after the base64 decoding, in the parts of the binary.
  pub check_binary_parts :
      (v : ℕ) (room expires sig k_mac : Bytes) (now : ℕ)
      → length room ≡ 16
      → length expires ≡ 8
      → length sig ≡ 32
      → check_binary C U ((v ∷ (room ++ expires)) ++ sig) k_mac now
        ≡ (if v == version_v1 then verdict room expires sig k_mac now else err ticket_decode_failed)
  unfolding check_binary
  check_binary_parts v room expires sig k_mac now r e s =
      rw
        (
          slice-body v room expires sig r e s,
          slice_sig v room expires sig r e s,
          slice_expires v room expires sig r e s,
          slice-room v room expires sig r e s,
        )
        (ground arith)

  -- The decision on a text of the alphabet that spells such a binary.
  pub decode_parts :
      (text : Text) (v : ℕ) (room expires sig k_mac : Bytes) (now : ℕ)
      → length room ≡ 16
      → length expires ≡ 8
      → length sig ≡ 32
      → All IsBase64Url text
      → C.base64_decode text ≡ some ((v ∷ (room ++ expires)) ++ sig)
      → decode_reference_v1 C U text k_mac now
        ≡ (if v == version_v1 then verdict room expires sig k_mac now else err ticket_decode_failed)
  unfolding decode_reference_v1
  decode_parts text v room expires sig k_mac now r e s alpha d =
      rw (pad_strict_scan-alphabet text alpha, d, whole)
        (check_binary_parts v room expires sig k_mac now r e s)
    where
      whole : length ((v ∷ (room ++ expires)) ++ sig) ≡ 57
      whole =
          omega
            (arith, length-append {0} (v ∷ (room ++ expires)) sig, length-append {0} room expires)

  module _ (room : Bytes) (expires_unix : ℕ) (room16 : length room ≡ 16)
      (room_bytes : All IsByte room) (u64 : expires_unix < 2 ^ 64) where
    body-IsByte : All IsByte (ticket_body C room expires_unix)
    unfolding ticket_body
    body-IsByte =
        (omega arith, All-append IsByte room _ room_bytes (u64_to_be_bytes-IsByte expires_unix))

    abbrev mac : Bytes → Bytes
    mac key = hmac_sha256 C key (ticket_body C room expires_unix)

    -- The verdict on a ticket of this room and expiry under any key and at any time.
    decode_issued :
        (k_mac k_hub : Bytes) (now : ℕ)
        → decode_reference_v1 C U (encode_reference_v1 C k_mac room expires_unix) k_hub now
          ≡ verdict room
              (u64_to_be_bytes expires_unix)
              (hmac_sha256 C k_mac (ticket_body C room expires_unix))
              k_hub
              now
    unfolding encode_reference_v1
    decode_issued k_mac k_hub now =
        let sig = hmac_sha256 C k_mac (ticket_body C room expires_unix) in
        let bytes : All IsByte (ticket_body C room expires_unix ++ sig) =
          All-append IsByte (ticket_body C room expires_unix) sig body-IsByte
            (C.mac-IsByte k_mac _) in
        decode_parts (C.base64_encode (ticket_body C room expires_unix ++ sig)) version_v1 room
          (u64_to_be_bytes expires_unix) sig k_hub now room16 (length-u64_to_be_bytes expires_unix)
          (C.length-mac k_mac _) (C.encode-IsBase64Url _ bytes) (C.decode-encode _ bytes)

    -- The hub accepts a ticket that was issued under its own key, for a room of 16 bytes and an
    -- expiry of 64 bits, exactly until its expiry has passed, and returns the room; an expiry of
    -- 0 never passes. After that the ticket is invalid.
    pub decode-encode :
        (k_mac : Bytes) (now : ℕ)
        → decode_reference_v1 C U (encode_reference_v1 C k_mac room expires_unix) k_mac now ≡ (
            if expires_unix == 0
            then ok (U.uuid_to_string (U.from_bytes room))
            else if ltb expires_unix now
            then err invalid_ticket
            else ok (U.uuid_to_string (U.from_bytes room)))
    decode-encode k_mac now =
        decode_issued k_mac k_mac now
        ∙ unfold ticket_body in
          rw
            (
              (C.ct_eq_iff (mac k_mac) (mac k_mac)).1 refl,
              from_be_bytes-u64_to_be_bytes expires_unix u64,
            )
            (ground arith)

    -- A ticket that was issued for a room of 16 bytes under another key, one that gives another
    -- MAC for it, is invalid at every time.
    pub decode_other_key :
        (k_mac k_hub : Bytes) (now : ℕ)
        → hmac_sha256 C k_mac (ticket_body C room expires_unix)
          ≢ hmac_sha256 C k_hub (ticket_body C room expires_unix)
        → decode_reference_v1 C U (encode_reference_v1 C k_mac room expires_unix) k_hub now
          ≡ err invalid_ticket
    decode_other_key k_mac k_hub now other =
        decode_issued k_mac k_hub now
        ∙ unfold ticket_body in
          rw (Bool-false (C.ct_eq (mac k_mac) (mac k_hub)) (λ p. other ((C.ct_eq_iff _ _).0 p)))

  -- A text with a byte outside the alphabet, `=` included, anywhere in it cannot be decoded.
  pub decode_bad_byte :
      (front back : Text) (b : ℕ) (k_mac : Bytes) (now : ℕ)
      → is_base64url_byte b ≡ false
      → decode_reference_v1 C U (front ++ b ∷ back) k_mac now ≡ err ticket_decode_failed
  unfolding decode_reference_v1
  decode_bad_byte front back b k_mac now h = rw (pad_strict_scan_refuses front back b h)
