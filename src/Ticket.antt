-- ===== src/Ticket.antt =====
-- guyos_core/src/domain/reference_ticket_v1.rs. The fixed arrays are lists whose lengths the types
-- of the source give.
pub mod Shape
pub mod RoundTrip
pub mod Sound
mod Tests
use guyos.Prelude.{
  ℕ, ◌+◌, ◌<◌, ◌≡◌, Bool, true, false, not, ◌&&◌, ◌||◌, Option, none, some, List, [], ◌∷◌, ◌++◌,
  Result, ok, err, ◌>>=◌, ◌>>◌, fail_if, ok_or, length, take, drop, ltb, leb, ◌==◌, if◌then◌else◌,
}
use guyos.Text.{Bytes, Text, lit}
use guyos.Text.Word.{u64_to_be_bytes, from_be_bytes}
use guyos.Crates.Crypto.{CryptoCrates}
use guyos.Crates.Ids.{UuidCrate}

abbrev pub version_v1 : ℕ
version_v1 = 0x01

abbrev pub ticket_binary_len : ℕ
ticket_binary_len = 57

-- `b"guyos-ticket-v1\0"`
unfoldable pub prefix : Bytes
unfolding lit
prefix = lit "guyos-ticket-v1" ++ 0 ∷ []

pub data ReferenceTicketError : Type 0 where
  ticket_decode_failed invalid_ticket : ReferenceTicketError

unfoldable pub portable_code : ReferenceTicketError → Text
portable_code ticket_decode_failed = lit "ticket_decode_failed"
portable_code invalid_ticket = lit "invalid_ticket"

-- `impl Display`
abbrev fmt_ticket_error : ReferenceTicketError → Text
fmt_ticket_error e = portable_code e

unfoldable pub is_base64url_byte : ℕ → Bool
is_base64url_byte b =
    leb b'A' b && leb b b'Z'
    || leb b'a' b && leb b b'z'
    || leb b'0' b && leb b b'9'
    || b == b'-'
    || b == b'_'

unfoldable pub pad_strict_scan : Text → Result (Unit {0}) ReferenceTicketError
unfolding is_base64url_byte
pad_strict_scan [] = ok tt
pad_strict_scan (b ∷ s) =
    let rest = pad_strict_scan s in
    if not (is_base64url_byte b) then err ticket_decode_failed else rest

-- `s[from..to]`
unfoldable pub slice : ℕ → ℕ → Bytes → Bytes
slice from to s = drop from (take to s)

-- `s[0] == b`; an index out of range would panic, and cannot happen behind the length test.
abbrev pub head_is : ℕ → Bytes → Bool
head_is v [] = false
head_is v (b ∷ s) = b == v

module _ (C : CryptoCrates) where
  unfoldable pub hmac_sha256 : Bytes → Bytes → Bytes
  hmac_sha256 k_mac body = C.hmac_sha256_mac k_mac (prefix ++ body)

  -- `body[0]`, `body[1..17]` and `body[17..25]` are written in this order.
  unfoldable pub ticket_body : Bytes → ℕ → Bytes
  ticket_body room_id expires_unix = version_v1 ∷ (room_id ++ u64_to_be_bytes expires_unix)

  unfoldable pub encode_reference_v1 : Bytes → Bytes → ℕ → Text
  unfolding hmac_sha256 ticket_body
  encode_reference_v1 k_mac room_id expires_unix =
      let body = ticket_body room_id expires_unix in
      let signature = hmac_sha256 k_mac body in C.base64_encode (body ++ signature)

  -- From the 57 bytes on: version, signature, expiry, room.
  unfoldable pub check_binary : UuidCrate → Bytes → Bytes → ℕ → Result Text ReferenceTicketError
  unfolding hmac_sha256
  check_binary U ticket_binary k_mac now_unix = do
    fail_if (not (head_is version_v1 ticket_binary)) ticket_decode_failed
    let body = slice 0 25 ticket_binary
    let signature = slice 25 57 ticket_binary
    let expected_mac = hmac_sha256 k_mac body
    fail_if (not (C.ct_eq signature expected_mac)) invalid_ticket
    let expires_unix = from_be_bytes (slice 17 25 body)
    fail_if (not (expires_unix == 0) && ltb expires_unix now_unix) invalid_ticket
    ok (U.uuid_to_string (U.from_bytes (slice 1 17 body)))

  unfoldable pub decode_reference_v1 :
      UuidCrate → Text → Bytes → ℕ → Result Text ReferenceTicketError
  unfolding pad_strict_scan
  decode_reference_v1 U ticket k_mac now_unix = do
    pad_strict_scan ticket
    decoded ← ok_or ticket_decode_failed (C.base64_decode ticket)
    fail_if (not (length decoded == ticket_binary_len)) ticket_decode_failed
    check_binary U decoded k_mac now_unix
