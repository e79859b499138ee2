-- ===== src/Text/Decimal/RoundTrip.antt =====
-- `parse::<u64>` reads what `to_string` prints, and nothing else that starts with a digit but `0`.
use mathlib.Core.Path.{ap₂}
use guyos.Prelude.{
  ℕ, zero, suc, ◌+◌, ◌-◌, ◌*◌, ◌/◌, ◌%◌, ◌<◌, ◌≤◌, ◌≡◌, refl, ap, ◌∙◌, sym, some, inl, inr, List,
  [], ◌∷◌, ◌++◌, append-nil, arith, ltb, All, Bool-cases,
}
use guyos.Text.Decimal.{digits, to_decimal, u64_bound, read, parse_u64}

-- Reading the last digit of `n` after the digits before it gives `n`.
read_digit :
    (n : ℕ) (out : List ℕ) → n < u64_bound → read ((b'0' + n % 10) ∷ out) (n / 10) ≡ read out n
unfolding read
read_digit n out h = ground arith

read-digits :
    (f n : ℕ) (out : List ℕ) → n < f → n < u64_bound → read (digits f n out) 0 ≡ read out n
unfolding digits
read-digits zero n out h k = absurd (omega arith)
read-digits (suc f) n out h k =
    ground (arith, read_digit n out, read-digits f (n / 10) ((b'0' + n % 10) ∷ out))

-- The first digit, and a bound on it.
digits_head :
    (f n : ℕ) (out : List ℕ)
    → n < f
    → (c : ℕ) × (s : List ℕ) × (digits f n out ≡ c ∷ s)
      × (b'0' ≤ c)
      × (c ≤ b'9')
      × (0 < n → b'1' ≤ c)
unfolding digits
digits_head zero n out h = absurd (omega arith)
digits_head (suc f) n out h = elim (Bool-cases (ltb n 10)) [
  | inl e ↦ (b'0' + n % 10, out, rw e, omega arith, omega arith, λ k. ground arith)
  | inr e ↦
      let (c, s, eq, lo, hi, first) =
        digits_head f (n / 10) ((b'0' + n % 10) ∷ out) (ground arith) in
      (c, s, rw e eq, lo, hi, λ k. first (ground arith))
]

parse_u64-eq-read : (c : ℕ) (s : List ℕ) → b'0' ≤ c → parse_u64 (c ∷ s) ≡ read (c ∷ s) 0
unfolding parse_u64
parse_u64-eq-read c [] h = ground arith
parse_u64-eq-read c (d ∷ s) h = ground arith

-- Any fuel above the number is enough.
digits_fuel : (f g n : ℕ) (out : List ℕ) → n < f → n < g → digits f n out ≡ digits g n out
unfolding digits
digits_fuel zero g n out h k = absurd (omega arith)
digits_fuel (suc f) zero n out h k = absurd (omega arith)
digits_fuel (suc f) (suc g) n out h k =
    ground (arith, digits_fuel f g (n / 10) ((b'0' + n % 10) ∷ out))

digits_step :
    (f n : ℕ) (out : List ℕ)
    → 10 ≤ n
    → digits (suc f) n out ≡ digits f (n / 10) ((b'0' + n % 10) ∷ out)
unfolding digits
digits_step f n out h = ground arith

digits_last : (n : ℕ) (out : List ℕ) → n < 10 → digits (suc n) n out ≡ (b'0' + n) ∷ out
unfolding digits
digits_last n out h = ground arith

abbrev print : ℕ → List ℕ → List ℕ
print n out = digits (suc n) n out

print_step :
    (m d : ℕ) (out : List ℕ) → 0 < m → d < 10 → print (m * 10 + d) out ≡ print m ((b'0' + d) ∷ out)
print_step m d out h k =
    digits_step (m * 10 + d) (m * 10 + d) out (omega arith)
    ∙ ap₂ (λ q r. digits (m * 10 + d) q ((b'0' + r) ∷ out)) (omega arith) (omega arith)
    ∙ digits_fuel (m * 10 + d) (suc m) m _ (omega arith) (omega arith)

read_end : (n : ℕ) → read [] n ≡ some n
unfolding read
read_end n = refl

-- What a successful round of `read` says of its byte.
read_round :
    (c : ℕ) (s : List ℕ) (m n : ℕ)
    → read (c ∷ s) m ≡ some n
    → (b'0' ≤ c) × (c ≤ b'9') × (read s (m * 10 + (c - b'0')) ≡ some n)
unfolding read
read_round c s m n e = ground arith

read_bound : (s : List ℕ) (m n : ℕ) → m < u64_bound → read s m ≡ some n → n < u64_bound
unfolding read
read_bound [] m n h e = ground arith
read_bound (c ∷ s) m n h e = ground (arith, read_bound s (m * 10 + (c - b'0')) n)

-- Behind a positive number the text that was read is the text of the digits.
read-print :
    (s : List ℕ) (m n : ℕ) (out : List ℕ)
    → 0 < m
    → read s m ≡ some n
    → print n out ≡ print m (s ++ out)
read-print [] m n out h e = unfold read in cc
read-print (c ∷ s) m n out h e =
    let (lo, hi, more) = read_round c s m n e in
    read-print s (m * 10 + (c - b'0')) n out (omega arith) more
    ∙ print_step m (c - b'0') (s ++ out) h (omega arith)
    ∙ ap (λ d. print m (d ∷ (s ++ out))) (omega arith)

-- `parse::<u64>` gives back every u64 that was printed.
pub parse_u64-to_decimal : (n : ℕ) → n < u64_bound → parse_u64 (to_decimal n) ≡ some n
unfolding to_decimal
parse_u64-to_decimal n h =
    let (c, s, e, lo, hi, _) = digits_head (suc n) n [] (omega arith) in
    cc (e, parse_u64-eq-read c s lo, read-digits (suc n) n [] (omega arith) h, read_end n)

-- The print of a number is `0` alone or starts with a digit from `1` to `9`.
pub to_decimal_head :
    (n : ℕ)
    → (c : ℕ) × (s : List ℕ) × (to_decimal n ≡ c ∷ s) × (b'0' ≤ c) × (c ≤ b'9') × (0 < n → b'1' ≤ c)
unfolding to_decimal
to_decimal_head n = digits_head (suc n) n [] (omega arith)

-- A text with a first digit from `1` to `9` that parses is the print of the number, which is a u64.
pub parse_u64_canonical :
    (c : ℕ) (s : List ℕ) (n : ℕ)
    → b'1' ≤ c
    → parse_u64 (c ∷ s) ≡ some n
    → (c ∷ s ≡ to_decimal n) × (n < u64_bound)
unfolding to_decimal
parse_u64_canonical c s n h e =
    let r = sym (parse_u64-eq-read c s (omega arith)) ∙ e in
    let (lo, hi, more) = read_round c s 0 n r in
    (
      sym (
          read-print s (0 * 10 + (c - b'0')) n [] (omega arith) more
          ∙ digits_last (0 * 10 + (c - b'0')) (s ++ []) (omega arith)
          ∙ ap₂ (λ d t. d ∷ t) (omega arith) (append-nil s)),
      read_bound (c ∷ s) 0 n (omega arith) r,
    )

abbrev pub IsDigit : ℕ → Type 0
IsDigit c = (b'0' ≤ c) × (c ≤ b'9')

digits-IsDigit : (f n : ℕ) (out : List ℕ) → All IsDigit out → All IsDigit (digits f n out)
unfolding digits
digits-IsDigit zero n out h = h
digits-IsDigit (suc f) n out h = elim (Bool-cases (ltb n 10)) [
  | inl e ↦ rw e (omega arith, h)
  | inr e ↦ rw e (digits-IsDigit f (n / 10) ((b'0' + n % 10) ∷ out) (omega arith, h))
]

-- A print is made of digits.
pub to_decimal-IsDigit : (n : ℕ) → All IsDigit (to_decimal n)
unfolding to_decimal
to_decimal-IsDigit n = digits-IsDigit (suc n) n [] tt

pub to_decimal_zero : to_decimal 0 ≡ b'0' ∷ []
unfolding to_decimal
to_decimal_zero = refl
