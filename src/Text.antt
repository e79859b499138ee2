-- ===== src/Text.antt =====
-- Rust's `String` and `&str` as their UTF-8 bytes, `Vec<u8>` as a list of bytes, and what the code
-- uses of the standard library on them: equality, `len`, `u32::to_be_bytes` and its inverse,
-- `String::from_utf8`, `u64::to_string` and `str::parse::<u64>`.
pub mod Utf8
pub mod Word
pub mod Decimal
pub mod Lossy
pub mod Ascii
pub mod Lines
pub mod Trim
use Prim.Native.Char.{code}
use guyos.Prelude.{
  ℕ, String, ◌<◌, ◌≡◌, refl, ap, ◌↔◌, ◌≢◌, Bool, true, false, ◌&&◌, List, [], ◌∷◌, ◌++◌, arith,
  ◌==◌, ==_iff, All,
}

abbrev pub Bytes : Type 0
Bytes = List ℕ

abbrev pub Text : Type 0
Text = List ℕ

abbrev pub IsByte : ℕ → Type 0
IsByte b = b < 256

abbrev codes : String → Bytes
codes String.[] = []
codes (String.◌∷◌ c s) = code c ∷ codes s

-- A literal of the source. All of them are ASCII, so the code points are the bytes.
unfoldable pub lit : String → Text
lit s = codes s

unfoldable pub text_eq : Text → Text → Bool
text_eq [] [] = true
text_eq [] (b ∷ t) = false
text_eq (a ∷ s) [] = false
text_eq (a ∷ s) (b ∷ t) = a == b && text_eq s t

pub text_eq→eq : (s t : Text) → text_eq s t ≡ true → s ≡ t
unfolding text_eq
text_eq→eq [] [] h = refl
text_eq→eq [] (b ∷ t) h = cc
text_eq→eq (a ∷ s) [] h = cc
text_eq→eq (a ∷ s) (b ∷ t) h = ground (arith, text_eq→eq s t)

pub text_eq_refl : (s : Text) → text_eq s s ≡ true
unfolding text_eq
text_eq_refl [] = refl
text_eq_refl (a ∷ s) = ground (arith, text_eq_refl s)

pub eq→text_eq : (s t : Text) → s ≡ t → text_eq s t ≡ true
eq→text_eq s t e = rw e (text_eq_refl t)

pub text_eq_iff : (s t : Text) → (text_eq s t ≡ true) ↔ (s ≡ t)
text_eq_iff s t = (text_eq→eq s t, eq→text_eq s t)

-- `str::is_empty`
abbrev pub is_empty : Text → Bool
is_empty [] = true
is_empty (b ∷ s) = false
