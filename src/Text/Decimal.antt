-- ===== src/Text/Decimal.antt =====
-- `u64::to_string` and `str::parse::<u64>`.
pub mod RoundTrip
use guyos.Prelude.{
  ℕ, zero, suc, ◌+◌, ◌-◌, ◌*◌, ◌/◌, ◌%◌, ◌^◌, ◌≡◌, refl, ◌||◌, Option, none, some, List, [], ◌∷◌,
  ltb, ◌==◌, if◌then◌else◌,
}

-- The digits of `n` before `out`, the lowest first. Each round takes one digit.
digits : ℕ → ℕ → List ℕ → List ℕ
digits zero n out = out
digits (suc fuel) n out =
    let rest = digits fuel (n / 10) ((b'0' + n % 10) ∷ out) in
    if ltb n 10 then (b'0' + n % 10) ∷ out else rest

-- `n` has at most `n + 1` digits.
unfoldable pub to_decimal : ℕ → List ℕ
unfolding digits
to_decimal n = digits (suc n) n []

abbrev u64_bound : ℕ
u64_bound = 2 ^ 64

-- `checked_mul(10)` and `checked_add(digit)`: any overflow and any other byte is an error.
read : List ℕ → ℕ → Option ℕ
read [] acc = some acc
read (c ∷ s) acc =
    let value = acc * 10 + (c - b'0') in
    let rest = read s value in
    if ltb c b'0' || ltb b'9' c then none else if ltb value u64_bound then rest else none

-- A sign `+` is taken, but not alone; the empty text is an error.
unfoldable pub parse_u64 : List ℕ → Option ℕ
unfolding read
parse_u64 [] = none
parse_u64 (c ∷ []) = if c == b'+' then none else read (c ∷ []) 0
parse_u64 (c ∷ d ∷ s) = if c == b'+' then read (d ∷ s) 0 else read (c ∷ d ∷ s) 0
