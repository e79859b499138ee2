-- ===== src/Ticket/Tests.antt =====
-- Tickets under a toy key.
use guyos.Prelude.{ℕ, ◌<◌, ◌≤◌, ◌^◌, ◌≡◌, ◌≢◌, ◌⊎◌, refl, [], ◌∷◌, ok, err, arith, length, All}
use guyos.Text.{Bytes, IsByte}
use guyos.Crates.Sample.{sample_uuid}
use guyos.Crates.Sample.Base64.{sample_crypto}
use guyos.Ticket.{
  hmac_sha256, ticket_body, encode_reference_v1, decode_reference_v1, invalid_ticket,
}
use guyos.Ticket.RoundTrip.{decode-encode, decode_other_key}
use guyos.Ticket.Sound.{decode_sound}

abbrev room : Bytes
room = 1 ∷ 2 ∷ 3 ∷ 4 ∷ 5 ∷ 6 ∷ 7 ∷ 8 ∷ 9 ∷ 10 ∷ 11 ∷ 12 ∷ 13 ∷ 14 ∷ 15 ∷ 255 ∷ []

room-IsByte : All IsByte room
room-IsByte = (
  omega arith,
  (
    omega arith,
    (
      omega arith,
      (
        omega arith,
        (
          omega arith,
          (
            omega arith,
            (
              omega arith,
              (
                omega arith,
                (
                  omega arith,
                  (
                    omega arith,
                    (
                      omega arith,
                      (omega arith, (omega arith, (omega arith, (omega arith, (omega arith, tt))))),
                    ),
                  ),
                ),
              ),
            ),
          ),
        ),
      ),
    ),
  ),
)

-- Before its expiry the ticket opens its room.
decode-encode_example :
    decode_reference_v1 sample_crypto sample_uuid
      (encode_reference_v1 sample_crypto (5 ∷ []) room 1_700_000_000)
      (5 ∷ [])
      1_600_000_000
    ≡ ok room
decode-encode_example =
    decode-encode sample_crypto sample_uuid room 1_700_000_000 refl room-IsByte (omega arith)
      (5 ∷ []) 1_600_000_000

decode_other_key_example :
    decode_reference_v1 sample_crypto sample_uuid
      (encode_reference_v1 sample_crypto (5 ∷ []) room 0)
      (6 ∷ [])
      0
    ≡ err invalid_ticket
unfolding hmac_sha256
decode_other_key_example =
    decode_other_key sample_crypto sample_uuid room 0 refl room-IsByte (omega arith) (5 ∷ [])
      (6 ∷ []) 0 macs
  where
    macs :
        hmac_sha256 sample_crypto (5 ∷ []) (ticket_body sample_crypto room 0)
        ≢ hmac_sha256 sample_crypto (6 ∷ []) (ticket_body sample_crypto room 0)
    macs e = cc

-- A padded ticket.

decode_sound_example :
    (r : Bytes) × (expires_unix : ℕ) × (length r ≡ 16)
    × All IsByte r
    × (expires_unix < 2 ^ 64)
    × (encode_reference_v1 sample_crypto (5 ∷ []) room 1_700_000_000
        ≡ encode_reference_v1 sample_crypto (5 ∷ []) r expires_unix)
    × (room ≡ r)
    × ((expires_unix ≡ 0) ⊎ (1_600_000_000 ≤ expires_unix))
decode_sound_example =
    decode_sound sample_crypto sample_uuid
      (encode_reference_v1 sample_crypto (5 ∷ []) room 1_700_000_000) (5 ∷ []) 1_600_000_000 room
      opens
  where
    opens :
        decode_reference_v1 sample_crypto sample_uuid
          (encode_reference_v1 sample_crypto (5 ∷ []) room 1_700_000_000)
          (5 ∷ [])
          1_600_000_000
        ≡ ok room
    opens =
        decode-encode sample_crypto sample_uuid room 1_700_000_000 refl room-IsByte (omega arith)
          (5 ∷ []) 1_600_000_000
