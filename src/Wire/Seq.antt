-- ===== src/Wire/Seq.antt =====
-- `parse_seq_wire` of guyos_core/src/domain/guyos_wire_v1.rs against `seq_to_wire`.
use guyos.Prelude.{
  ℕ, zero, suc, ◌^◌, ◌<◌, ◌≤◌, ◌≡◌, refl, sym, ap, ◌∙◌, ◌↔◌, Bool, true, false, not, ◌&&◌, ◌||◌, [],
  ◌∷◌, ok, err, ok_or, ltb, leb, ◌==◌, if◌then◌else◌, arith, inl, inr, ◌⊎◌, All,
}
use guyos.Text.{Text, lit, text_eq, text_eq_iff, is_empty}
use guyos.Text.Decimal.{to_decimal, parse_u64}
use guyos.Text.Decimal.RoundTrip.{
  parse_u64-to_decimal, parse_u64_canonical, to_decimal_head, IsDigit, to_decimal-IsDigit,
  to_decimal_zero,
}
use guyos.Wire.{malformed_json, Decoded, seq_to_wire}

-- `u8::is_ascii_whitespace`: space, tab, line feed, form feed, carriage return.
abbrev is_ascii_whitespace : ℕ → Bool
is_ascii_whitespace b = b == 32 || b == 9 || b == 10 || b == 12 || b == 13

abbrev is_ascii_digit : ℕ → Bool
is_ascii_digit b = leb b'0' b && leb b b'9'

unfoldable pub any_whitespace : Text → Bool
any_whitespace [] = false
any_whitespace (b ∷ s) = is_ascii_whitespace b || any_whitespace s

unfoldable pub all_digits : Text → Bool
all_digits [] = true
all_digits (b ∷ s) = is_ascii_digit b && all_digits s

-- The tests behind the empty text and "0": `bytes[0]`, then `bytes[1..]`, then the parse.
unfoldable pub parse_digits : Text → Decoded ℕ
parse_digits [] = err malformed_json
parse_digits (b ∷ s) =
    if ltb b b'1' || ltb b'9' b
    then err malformed_json
    else if not (all_digits s)
    then err malformed_json
    else ok_or malformed_json (parse_u64 (b ∷ s))

unfoldable pub parse_seq_wire : Text → Decoded ℕ
unfolding any_whitespace all_digits
parse_seq_wire raw =
    if is_empty raw
    then err malformed_json
    else if any_whitespace raw
    then err malformed_json
    else if text_eq raw (lit "0")
    then ok 0
    else parse_digits raw

digits_no_whitespace : (s : Text) → All IsDigit s → any_whitespace s ≡ false
unfolding any_whitespace
digits_no_whitespace [] h = refl
digits_no_whitespace (b ∷ s) h = ground (arith, digits_no_whitespace s h.1)

digits_all_digits : (s : Text) → All IsDigit s → all_digits s ≡ true
unfolding all_digits
digits_all_digits [] h = refl
digits_all_digits (b ∷ s) h = ground (arith, digits_all_digits s h.1)

-- "0" alone is the print of 0.
parse_seq_zero : parse_seq_wire (to_decimal 0) ≡ ok 0
unfolding parse_seq_wire
parse_seq_zero = rw to_decimal_zero (unfold lit text_eq in refl)

not_zero : (c : ℕ) (s : Text) → b'1' ≤ c → text_eq (c ∷ s) (lit "0") ≡ false
unfolding lit text_eq
not_zero c s h = ground arith

parse_digits_print :
    (n c : ℕ) (s : Text)
    → n < 2 ^ 64
    → to_decimal n ≡ c ∷ s
    → b'1' ≤ c
    → c ≤ b'9'
    → all_digits s ≡ true
    → parse_digits (c ∷ s) ≡ ok n
unfolding parse_digits
parse_digits_print n c s h e lo hi d = ground (arith, parse_u64-to_decimal n h)

parse_seq_print :
    (n c : ℕ) (s : Text)
    → n < 2 ^ 64
    → to_decimal n ≡ c ∷ s
    → b'1' ≤ c
    → c ≤ b'9'
    → All IsDigit (c ∷ s)
    → parse_seq_wire (c ∷ s) ≡ ok n
unfolding parse_seq_wire
parse_seq_print n c s h e lo hi d =
    rw (digits_no_whitespace (c ∷ s) d, not_zero c s lo)
      (parse_digits_print n c s h e lo hi (digits_all_digits s d.1))

parse_digits_inv :
    (raw : Text) (n : ℕ) → parse_digits raw ≡ ok n → (raw ≡ to_decimal n) × (n < 2 ^ 64)
unfolding parse_digits
parse_digits_inv [] n h = cc
parse_digits_inv (c ∷ s) n h = parse_u64_canonical c s n (ground arith) (ground arith)

parse_seq_inv :
    (raw : Text) (n : ℕ)
    → parse_seq_wire raw ≡ ok n
    → ((raw ≡ lit "0") × (n ≡ 0)) ⊎ (parse_digits raw ≡ ok n)
unfolding parse_seq_wire
parse_seq_inv raw n h = ground (arith, text_eq_iff raw (lit "0"))

accepts_print : (n : ℕ) → n < 2 ^ 64 → parse_seq_wire (to_decimal n) ≡ ok n
accepts_print zero h = parse_seq_zero
accepts_print (suc n) h =
    let (c, s, e, lo, hi, first) = to_decimal_head (suc n) in
    let d : All IsDigit (c ∷ s) = rw e at (to_decimal-IsDigit (suc n)) in
    rw e (parse_seq_print (suc n) c s h e (first (omega arith)) hi d)

accepts_only :
    (raw : Text) (n : ℕ) → parse_seq_wire raw ≡ ok n → (raw ≡ to_decimal n) × (n < 2 ^ 64)
accepts_only raw n h = elim (parse_seq_inv raw n h) [
  | inl (e, z) ↦ (e ∙ zero_text ∙ ap to_decimal (sym z), omega arith)
  | inr d ↦ parse_digits_inv raw n d
]
  where
    zero_text : lit "0" ≡ to_decimal 0
    zero_text = unfold lit in sym to_decimal_zero

-- The decoder takes exactly the decimal prints of the 64-bit numbers, each for its own number: no
-- sign, no leading zero, no space, no overflow.
pub parse_seq_wire_iff :
    (raw : Text) (n : ℕ) → (parse_seq_wire raw ≡ ok n) ↔ ((raw ≡ seq_to_wire n) × (n < 2 ^ 64))
unfolding seq_to_wire
parse_seq_wire_iff raw n = (accepts_only raw n, λ h. ap parse_seq_wire h.0 ∙ accepts_print n h.1)
