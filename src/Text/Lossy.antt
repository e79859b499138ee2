-- ===== src/Text/Lossy.antt =====
-- `String::from_utf8_lossy`: each longest start of a character that cannot go on is replaced by U+FFFD.
use guyos.Prelude.{
  ℕ, ◌≡◌, refl, ap, ◌∙◌, sym, true, Option, none, some, List, [], ◌∷◌, ◌++◌, append_assoc,
  append-nil, Option-cases, inl, inr,
}
use guyos.Text.Utf8.{Pending, lead, advance, scan, scan_step, resume, is_utf8}

abbrev replacement : List ℕ
replacement = 0xef ∷ 0xbf ∷ 0xbd ∷ []

-- What is put out, what the character still needs, and its bytes so far.
abbrev State : Type 0
State = List ℕ × Pending × List ℕ

-- A byte at the start of a character.
abbrev begin : ℕ → Option Pending → State
begin b none = (replacement, [], [])
begin b (some []) = (b ∷ [], [], [])
begin b (some (p ∷ ps)) = ([], p ∷ ps, b ∷ [])

-- A byte behind `acc`; the last argument is what it is as the start of a character.
abbrev continue : List ℕ → ℕ → Option Pending → Option Pending → State
continue acc b (some []) start = (acc ++ b ∷ [], [], [])
continue acc b (some (p ∷ ps)) start = ([], p ∷ ps, acc ++ b ∷ [])
continue acc b none start = let (out, ps, acc') = begin b start in (replacement ++ out, ps, acc')

step : Pending → List ℕ → ℕ → State
step [] acc b = begin b (lead b)
step (p ∷ ps) acc b = continue acc b (advance (p ∷ ps) b) (lead b)

abbrev close : Pending → List ℕ
close [] = []
close (p ∷ ps) = replacement

lossy : Pending → List ℕ → List ℕ → List ℕ
unfolding step
lossy ps acc [] = close ps
lossy ps acc (b ∷ s) = let (out, ps', acc') = step ps acc b in out ++ lossy ps' acc' s

unfoldable pub from_utf8_lossy : List ℕ → List ℕ
unfolding lossy
from_utf8_lossy s = lossy [] [] s

-- Between two characters nothing is kept.
abbrev Between : Pending → List ℕ → Type 0
Between [] acc = acc ≡ []
Between (p ∷ ps) acc = Unit {0}

-- A byte with which the text stays well-formed is kept as it is.
step_kept :
    (ps : Pending) (acc : List ℕ) (b : ℕ) (qs : Pending)
    → Between ps acc
    → advance ps b ≡ some qs
    → (Between qs (step ps acc b).2)
      × ((step ps acc b).1 ≡ qs)
      × ((step ps acc b).0 ++ (step ps acc b).2 ≡ acc ++ b ∷ [])
unfolding step advance
step_kept [] acc b [] e h = rw (h, e) (refl, refl, refl)
step_kept [] acc b (q ∷ qs) e h = rw (h, e) (tt, refl, refl)
step_kept (p ∷ ps) acc b [] e h = rw h (refl, refl, append-nil (acc ++ b ∷ []))
step_kept (p ∷ ps) acc b (q ∷ qs) e h = rw h (tt, refl, refl)

lossy_kept :
    (s : List ℕ) (ps : Pending) (acc : List ℕ)
    → Between ps acc
    → scan ps s ≡ true
    → lossy ps acc s ≡ acc ++ s
unfolding lossy
lossy_kept [] [] acc e h = rw e refl
lossy_kept [] (p ∷ ps) acc e h = unfold scan in cc
lossy_kept (b ∷ s) ps acc e h = elim (Option-cases (advance ps b)) [
  | inl none_eq ↦ cc (scan_step ps b s, ap (λ o. resume o s) none_eq)
  | inr (qs, some_eq) ↦
      let (between, qs_eq, bytes) = step_kept ps acc b qs e some_eq in
      ap (λ p. (step ps acc b).0 ++ lossy p (step ps acc b).2 s) qs_eq
      ∙ ap (λ t. (step ps acc b).0 ++ t)
          (lossy_kept s qs (step ps acc b).2 between (rw (scan_step ps b s, some_eq) at h))
      ∙ sym (append_assoc (step ps acc b).0 (step ps acc b).2 s)
      ∙ ap (λ t. t ++ s) bytes
      ∙ append_assoc acc (b ∷ []) s
]

-- Well-formed text is kept as it is.
pub from_utf8_lossy_valid : (s : List ℕ) → is_utf8 s ≡ true → from_utf8_lossy s ≡ s
unfolding from_utf8_lossy is_utf8
from_utf8_lossy_valid s h = lossy_kept s [] [] refl h
