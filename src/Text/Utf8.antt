-- ===== src/Text/Utf8.antt =====
-- `String::from_utf8`: the well-formed byte sequences of the Unicode standard.
use guyos.Prelude.{
  ℕ, ◌<◌, ◌≡◌, refl, Bool, true, false, ◌&&◌, Option, none, some, List, [], ◌∷◌, ◌++◌, arith, ltb,
  leb, ◌==◌, if◌then◌else◌, All, Option-cases, inl, inr, ap,
}

-- The ranges in which the bytes that are still missing must lie.
abbrev pub Pending : Type 0
Pending = List (ℕ × ℕ)

abbrev pub tail : ℕ × ℕ
tail = (0x80, 0xbf)

-- What a first byte announces; `none` if it can stand at the start of no character.
unfoldable pub lead : ℕ → Option Pending
lead b =
    if ltb b 0x80
    then some []
    else if ltb b 0xc2
    then none
    else if ltb b 0xe0
    then some (tail ∷ [])
    else if b == 0xe0
    then some ((0xa0, 0xbf) ∷ tail ∷ [])
    else if b == 0xed
    then some ((0x80, 0x9f) ∷ tail ∷ [])
    else if ltb b 0xf0
    then some (tail ∷ tail ∷ [])
    else if b == 0xf0
    then some ((0x90, 0xbf) ∷ tail ∷ tail ∷ [])
    else if ltb b 0xf4
    then some (tail ∷ tail ∷ tail ∷ [])
    else if b == 0xf4
    then some ((0x80, 0x8f) ∷ tail ∷ tail ∷ [])
    else none

unfoldable pub advance : Pending → ℕ → Option Pending
unfolding lead
advance [] b = lead b
advance ((lo, hi) ∷ more) b = if leb lo b && leb b hi then some more else none

abbrev pub is_complete : Pending → Bool
is_complete [] = true
is_complete (p ∷ ps) = false

unfoldable pub scan : Pending → List ℕ → Bool
unfolding advance
scan ps [] = is_complete ps
scan ps (b ∷ s) = elim (advance ps b) [ none ↦ false | some qs ↦ scan qs s ]

unfoldable pub is_utf8 : List ℕ → Bool
unfolding scan
is_utf8 s = scan [] s

-- The result is the bytes themselves: a `String` is its UTF-8 encoding.
unfoldable pub from_utf8 : List ℕ → Option (List ℕ)
from_utf8 s = if is_utf8 s then some s else none

abbrev pub resume : Option Pending → List ℕ → Bool
resume none s = false
resume (some ps) s = scan ps s

pub scan_step : (ps : Pending) (b : ℕ) (s : List ℕ) → scan ps (b ∷ s) ≡ resume (advance ps b) s
unfolding scan
scan_step [] b s = ground arith
scan_step (p ∷ ps) b s = ground arith

scan-append :
    (s t : List ℕ) (ps : Pending) → scan ps s ≡ true → scan [] t ≡ true → scan ps (s ++ t) ≡ true
scan-append [] t [] h k = k
scan-append [] t (p ∷ ps) h k = unfold scan in cc
scan-append (b ∷ s) t ps h k = elim (Option-cases (advance ps b)) [
  | inl e ↦ cc (scan_step ps b s, ap (λ o. resume o s) e)
  | inr (qs, e) ↦
      rw (scan_step ps b (s ++ t), e) (scan-append s t qs (rw (scan_step ps b s, e) at h) k)
]

-- Well-formed texts may be joined.
pub is_utf8-append : (s t : List ℕ) → is_utf8 s ≡ true → is_utf8 t ≡ true → is_utf8 (s ++ t) ≡ true
unfolding is_utf8
is_utf8-append s t = scan-append s t []

-- ASCII is UTF-8.
pub ascii-is_utf8 : (s : List ℕ) → All (λ b. b < 128) s → is_utf8 s ≡ true
unfolding is_utf8
ascii-is_utf8 [] h = refl
ascii-is_utf8 (b ∷ s) h = ground (arith, ascii-is_utf8 s h.1)

pub from_utf8_eq : (s : List ℕ) → is_utf8 s ≡ true → from_utf8 s ≡ some s
unfolding from_utf8
from_utf8_eq s h = rw h

pub from_utf8_inv : (s t : List ℕ) → from_utf8 s ≡ some t → (t ≡ s) × (is_utf8 s ≡ true)
unfolding from_utf8
from_utf8_inv s t h = ground arith
