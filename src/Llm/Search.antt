-- ===== src/Llm/Search.antt =====
-- The search for the first delimiter.
use guyos.Prelude.{
  ℕ, ◌+◌, ◌≡◌, ◌⊎◌, subst, refl, ap, ◌∙◌, true, false, some, [], ◌∷◌, ◌++◌, length, arith,
  Bool-cases, inl, inr,
}
use guyos.Text.{Bytes}
use guyos.Llm.{is_crlf_delimiter, is_lf_delimiter, find_from, find_event_delimiter}

-- The two ends of an event.
abbrev pub IsDelimiter : Bytes → Type 0
IsDelimiter d = (d ≡ 13 ∷ 10 ∷ 13 ∷ 10 ∷ []) ⊎ (d ≡ 10 ∷ 10 ∷ [])

-- A place where neither test of the loop succeeds.
abbrev pub NoDelimiter : Bytes → Type 0
NoDelimiter s = (is_crlf_delimiter s ≡ false) × (is_lf_delimiter s ≡ false)

crlf_here :
    (s : Bytes) → is_crlf_delimiter s ≡ true → (rest : Bytes) × (s ≡ 13 ∷ 10 ∷ 13 ∷ 10 ∷ rest)
unfolding is_crlf_delimiter
crlf_here (a ∷ b ∷ c ∷ d ∷ s) h = (s, ground arith)
crlf_here [] h = absurd (ground arith)
crlf_here (a ∷ []) h = absurd (ground arith)
crlf_here (a ∷ b ∷ []) h = absurd (ground arith)
crlf_here (a ∷ b ∷ c ∷ []) h = absurd (ground arith)

lf_here : (s : Bytes) → is_lf_delimiter s ≡ true → (rest : Bytes) × (s ≡ 10 ∷ 10 ∷ rest)
unfolding is_lf_delimiter
lf_here (a ∷ b ∷ s) h = (s, ground arith)
lf_here [] h = absurd (ground arith)
lf_here (a ∷ []) h = absurd (ground arith)

-- No delimiter begins in `front` when `back` follows it.
abbrev pub First : Bytes → Bytes → Type 0
First [] back = Unit
First (b ∷ front) back = NoDelimiter ((b ∷ front) ++ back) × First front back

ends :
    (s : Bytes)
    → (is_crlf_delimiter s ≡ true) ⊎ (is_lf_delimiter s ≡ true)
    → (d : Bytes) × (rest : Bytes) × IsDelimiter d × (s ≡ d ++ rest)
ends s (inl h) = let (rest, e) = crlf_here s h in (13 ∷ 10 ∷ 13 ∷ 10 ∷ [], rest, inl refl, e)
ends s (inr h) = let (rest, e) = lf_here s h in (10 ∷ 10 ∷ [], rest, inr refl, e)

find_step :
    (i : ℕ) (b : ℕ) (s : Bytes) (j : ℕ)
    → find_from i (b ∷ s) ≡ some j
    → ((j ≡ i) × ((is_crlf_delimiter (b ∷ s) ≡ true) ⊎ (is_lf_delimiter (b ∷ s) ≡ true)))
      ⊎ (NoDelimiter (b ∷ s) × (find_from (i + 1) s ≡ some j))
unfolding find_from
find_step i b s j h = elim (Bool-cases (is_crlf_delimiter (b ∷ s))) [
  | inl e ↦ inl (ground (arith, e), inl e)
  | inr e ↦ elim (Bool-cases (is_lf_delimiter (b ∷ s))) [
    | inl f ↦ inl (ground (arith, e, f), inr f)
    | inr f ↦ inr ((e, f), ground (arith, e, f))
  ]
]

find_none : (i : ℕ) (j : ℕ) → find_from i [] ≡ some j → ⊥
unfolding find_from
find_none i j h = cc

find_inv :
    (s : Bytes) (i j : ℕ)
    → find_from i s ≡ some j
    → (front : Bytes) × (d : Bytes) × (rest : Bytes) × IsDelimiter d
      × (s ≡ front ++ (d ++ rest))
      × (j ≡ i + length front)
      × First front (d ++ rest)
find_inv [] i j h = absurd (find_none i j h)
find_inv (b ∷ s) i j h = elim (find_step i b s j h) [
  | inl (j_eq, here) ↦
      let (d, rest, delim, e) = ends (b ∷ s) here in ([], d, rest, delim, e, omega arith, tt)
  | inr (miss, later) ↦
      let (front, d, rest, delim, e, j_eq, first) = find_inv s (i + 1) j later in
      (
        b ∷ front,
        d,
        rest,
        delim,
        ap (λ l. b ∷ l) e,
        omega arith,
        (subst (λ l. NoDelimiter (b ∷ l)) e miss, first),
      )
]

find_here : (i : ℕ) (d rest : Bytes) → IsDelimiter d → find_from i (d ++ rest) ≡ some i
unfolding find_from is_crlf_delimiter is_lf_delimiter
find_here i d rest (inl e) = rw e refl
find_here i d rest (inr e) = rw e (ground arith)

find_skip : (i b : ℕ) (s : Bytes) → NoDelimiter (b ∷ s) → find_from i (b ∷ s) ≡ find_from (i + 1) s
unfolding find_from
find_skip i b s (e, f) = rw (e, f) refl

find-First :
    (front d rest : Bytes) (i : ℕ)
    → IsDelimiter d
    → First front (d ++ rest)
    → find_from i (front ++ (d ++ rest)) ≡ some (i + length front)
find-First [] d rest i delim first = find_here i d rest delim ∙ ap some (omega arith)
find-First (b ∷ front) d rest i delim (miss, first) =
    find_skip i b (front ++ (d ++ rest)) miss
    ∙ find-First front d rest (i + 1) delim first
    ∙ ap some (omega arith)

pub find_event_inv :
    (buf : Bytes) (j : ℕ)
    → find_event_delimiter buf ≡ some j
    → (front : Bytes) × (d : Bytes) × (rest : Bytes) × IsDelimiter d
      × (buf ≡ front ++ (d ++ rest))
      × (j ≡ length front)
      × First front (d ++ rest)
unfolding find_event_delimiter
find_event_inv buf j h =
    let (front, d, rest, delim, e, j_eq, first) = find_inv buf 0 j h in
    (front, d, rest, delim, e, omega arith, first)

pub find_event-First :
    (front d rest : Bytes)
    → IsDelimiter d
    → First front (d ++ rest)
    → find_event_delimiter (front ++ (d ++ rest)) ≡ some (length front)
unfolding find_event_delimiter
find_event-First front d rest delim first =
    find-First front d rest 0 delim first ∙ ap some (omega arith)
