-- ===== src/Text/Word.antt =====
-- `u32::to_be_bytes`, `u64::to_be_bytes` and their inverses.
use guyos.Prelude.{
  ℕ, ◌+◌, ◌*◌, ◌/◌, ◌%◌, ◌^◌, ◌<◌, ◌≡◌, refl, List, [], ◌∷◌, ◌++◌, arith, length, take, ◌≤◌, All,
}

unfoldable pub u32_to_be_bytes : ℕ → List ℕ
u32_to_be_bytes n = (n / 2 ^ 24 % 256) ∷ (n / 2 ^ 16 % 256) ∷ (n / 2 ^ 8 % 256) ∷ (n % 256) ∷ []

-- The value of the bytes, the first one the highest.
abbrev from_be : ℕ → List ℕ → ℕ
from_be acc [] = acc
from_be acc (b ∷ s) = from_be (acc * 256 + b) s

unfoldable pub from_be_bytes : List ℕ → ℕ
from_be_bytes s = from_be 0 s

unfoldable pub u64_to_be_bytes : ℕ → List ℕ
unfolding u32_to_be_bytes
u64_to_be_bytes n = u32_to_be_bytes (n / 2 ^ 32) ++ u32_to_be_bytes (n % 2 ^ 32)

pub from_be_bytes-u32_to_be_bytes : (n : ℕ) → n < 2 ^ 32 → from_be_bytes (u32_to_be_bytes n) ≡ n
unfolding from_be_bytes u32_to_be_bytes
from_be_bytes-u32_to_be_bytes n h = omega arith

pub from_be_bytes-u64_to_be_bytes : (n : ℕ) → n < 2 ^ 64 → from_be_bytes (u64_to_be_bytes n) ≡ n
unfolding from_be_bytes u64_to_be_bytes
from_be_bytes-u64_to_be_bytes n h = omega arith

pub length-u32_to_be_bytes : (n : ℕ) → length (u32_to_be_bytes n) ≡ 4
unfolding u32_to_be_bytes
length-u32_to_be_bytes n = refl

pub length-u64_to_be_bytes : (n : ℕ) → length (u64_to_be_bytes n) ≡ 8
unfolding u64_to_be_bytes
length-u64_to_be_bytes n = refl

pub u32_to_be_bytes-IsByte : (n : ℕ) → All (λ b. b < 256) (u32_to_be_bytes n)
unfolding u32_to_be_bytes
u32_to_be_bytes-IsByte n = omega arith

pub u64_to_be_bytes-IsByte : (n : ℕ) → All (λ b. b < 256) (u64_to_be_bytes n)
unfolding u64_to_be_bytes
u64_to_be_bytes-IsByte n = omega arith

word_bytes :
    (a b c d : ℕ)
    → a < 256
    → b < 256
    → c < 256
    → d < 256
    → u32_to_be_bytes (from_be_bytes (a ∷ b ∷ c ∷ d ∷ [])) ≡ a ∷ b ∷ c ∷ d ∷ []
unfolding u32_to_be_bytes from_be_bytes
word_bytes a b c d ha hb hc hd = ground arith

-- The first four bytes are the big-endian bytes of the number that they spell.
pub u32_to_be_bytes-take :
    (s : List ℕ)
    → 4 ≤ length s
    → All (λ b. b < 256) s
    → u32_to_be_bytes (from_be_bytes (take 4 s)) ≡ take 4 s
u32_to_be_bytes-take [] h k = absurd (omega arith)
u32_to_be_bytes-take (a ∷ []) h k = absurd (omega arith)
u32_to_be_bytes-take (a ∷ b ∷ []) h k = absurd (omega arith)
u32_to_be_bytes-take (a ∷ b ∷ c ∷ []) h k = absurd (omega arith)
u32_to_be_bytes-take (a ∷ b ∷ c ∷ d ∷ s) h k = word_bytes a b c d k.0 k.1.0 k.1.1.0 k.1.1.1.0

pub from_be_bytes-lt : (s : List ℕ) → All (λ b. b < 256) s → from_be_bytes (take 4 s) < 2 ^ 32
unfolding from_be_bytes
from_be_bytes-lt [] k = omega arith
from_be_bytes-lt (a ∷ []) k = omega arith
from_be_bytes-lt (a ∷ b ∷ []) k = omega arith
from_be_bytes-lt (a ∷ b ∷ c ∷ []) k = omega arith
from_be_bytes-lt (a ∷ b ∷ c ∷ d ∷ s) k = omega arith

-- Eight bytes are the big-endian bytes of the number that they spell, which is a u64.
pub u64_to_be_bytes-from_be_bytes :
    (s : List ℕ)
    → length s ≡ 8
    → All (λ b. b < 256) s
    → (u64_to_be_bytes (from_be_bytes s) ≡ s) × (from_be_bytes s < 2 ^ 64)
unfolding u64_to_be_bytes from_be_bytes
u64_to_be_bytes-from_be_bytes (a ∷ b ∷ c ∷ d ∷ e ∷ f ∷ g ∷ i ∷ []) h k = (ground arith, omega arith)
u64_to_be_bytes-from_be_bytes _ h k = absurd (omega arith)
