-- ===== src/Crates/Crypto.antt =====
-- data-encoding (`BASE64URL_NOPAD`), hmac with sha2, subtle.
use guyos.Prelude.{ℕ, ◌≤◌, ◌≡◌, ◌↔◌, ◌⊎◌, Bool, true, Option, some, length, All}
use guyos.Text.{Bytes, Text, IsByte}

-- The alphabet of RFC 4648, section 5.
abbrev pub IsBase64Url : ℕ → Type 0
IsBase64Url c =
    ((b'A' ≤ c) × (c ≤ b'Z'))
    ⊎ ((b'a' ≤ c) × (c ≤ b'z'))
    ⊎ ((b'0' ≤ c) × (c ≤ b'9'))
    ⊎ (c ≡ b'-')
    ⊎ (c ≡ b'_')

pub record CryptoCrates : Type 0 where
  pub base64_encode : Bytes → Text
  pub base64_decode : Text → Option Bytes
  -- The MAC of a message under a key of 32 bytes.
  pub hmac_sha256_mac : Bytes → Bytes → Bytes
  pub ct_eq : Bytes → Bytes → Bool
  -- The encoding has one text for each list of bytes: padding, other characters and stray bits are
  -- refused.
  pub decode-encode : (b : Bytes) → All IsByte b → base64_decode (base64_encode b) ≡ some b
  pub encode-decode : (s : Text) (b : Bytes) → base64_decode s ≡ some b → base64_encode b ≡ s
  pub decode-IsByte : (s : Text) (b : Bytes) → base64_decode s ≡ some b → All IsByte b
  pub encode-IsBase64Url : (b : Bytes) → All IsByte b → All IsBase64Url (base64_encode b)
  pub length-mac : (key msg : Bytes) → length (hmac_sha256_mac key msg) ≡ 32
  pub mac-IsByte : (key msg : Bytes) → All IsByte (hmac_sha256_mac key msg)
  pub ct_eq_iff : (a b : Bytes) → (ct_eq a b ≡ true) ↔ (a ≡ b)
