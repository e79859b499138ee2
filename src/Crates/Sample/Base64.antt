-- ===== src/Crates/Sample/Base64.antt =====
-- An encoding of bytes by two letters each, and a MAC that shows the first byte of its key.
use guyos.Prelude.{
  ℕ, ◌+◌, ◌*◌, ◌-◌, ◌/◌, ◌%◌, ◌≡◌, zero, suc, Bool, refl, Option, none, some, [], ◌∷◌, leb, ◌&&◌,
  if◌then◌else◌, arith, length, All, inl,
}
use guyos.Text.{Bytes, Text, IsByte, text_eq, text_eq_iff}
use guyos.Crates.Crypto.{CryptoCrates, IsBase64Url}

abbrev pub encode : Bytes → Text
encode [] = []
encode (b ∷ bs) = (b'A' + b / 16) ∷ (b'A' + b % 16) ∷ encode bs

abbrev pub is_letter : ℕ → Bool
is_letter c = leb b'A' c && leb c b'P'

abbrev pub decode : Text → Option Bytes
decode [] = some []
decode (c ∷ []) = none
decode (c ∷ d ∷ s) =
    let rest = decode s in
    if is_letter c && is_letter d
    then elim rest [ none ↦ none | some bs ↦ some (((c - b'A') * 16 + (d - b'A')) ∷ bs) ]
    else none

pub decode-encode : (b : Bytes) → All IsByte b → decode (encode b) ≡ some b
decode-encode [] h = refl
decode-encode (b ∷ bs) h = ground (arith, decode-encode bs h.1)

pub encode-decode : (s : Text) (b : Bytes) → decode s ≡ some b → encode b ≡ s
encode-decode [] b h = ground arith
encode-decode (c ∷ []) b h = absurd (ground arith)
encode-decode (c ∷ d ∷ s) [] h = absurd (ground arith)
encode-decode (c ∷ d ∷ s) (b ∷ bs) h = ground (arith, encode-decode s bs)

pub decode-IsByte : (s : Text) (b : Bytes) → decode s ≡ some b → All IsByte b
decode-IsByte s [] h = tt
decode-IsByte [] (b ∷ bs) h = absurd (ground arith)
decode-IsByte (c ∷ []) (b ∷ bs) h = absurd (ground arith)
decode-IsByte (c ∷ d ∷ s) (b ∷ bs) h = (ground arith, decode-IsByte s bs (ground arith))

pub encode-IsBase64Url : (b : Bytes) → All IsByte b → All IsBase64Url (encode b)
encode-IsBase64Url [] h = tt
encode-IsBase64Url (b ∷ bs) h = (inl (omega arith), (inl (omega arith), encode-IsBase64Url bs h.1))

abbrev zeros : ℕ → Bytes
zeros zero = []
zeros (suc n) = 0 ∷ zeros n

abbrev mac : Bytes → Bytes → Bytes
mac [] msg = zeros 32
mac (k ∷ ks) msg = (k % 256) ∷ zeros 31

pub length-mac : (key msg : Bytes) → length (mac key msg) ≡ 32
length-mac [] msg = refl
length-mac (k ∷ ks) msg = refl

zeros-IsByte : (n : ℕ) → All IsByte (zeros n)
zeros-IsByte zero = tt
zeros-IsByte (suc n) = (omega arith, zeros-IsByte n)

pub mac-IsByte : (key msg : Bytes) → All IsByte (mac key msg)
mac-IsByte [] msg = zeros-IsByte 32
mac-IsByte (k ∷ ks) msg = (omega arith, zeros-IsByte 31)

abbrev pub sample_crypto : CryptoCrates
sample_crypto = record {
  base64_encode = encode;
  base64_decode = decode;
  hmac_sha256_mac = mac;
  ct_eq = text_eq;
  decode-encode = decode-encode;
  encode-decode = encode-decode;
  decode-IsByte = decode-IsByte;
  encode-IsBase64Url = encode-IsBase64Url;
  length-mac = length-mac;
  mac-IsByte = mac-IsByte;
  ct_eq_iff = text_eq_iff;
}
