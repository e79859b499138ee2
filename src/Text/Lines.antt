-- ===== src/Text/Lines.antt =====
-- `str::lines`, `trim_end_matches('\r')` and `strip_prefix`.
use guyos.Prelude.{
  ℕ, ◌≡◌, append-nil, refl, ap, ◌∙◌, ◌≢◌, false, ◌&&◌, Option, none, some, List, [], ◌∷◌, ◌++◌,
  arith, ◌==◌, if◌then◌else◌, append_assoc, All,
}
use guyos.Text.{Text, is_empty}

-- The carriage return that ends a terminated line.
unfoldable pub strip_cr : Text → Text
strip_cr [] = []
strip_cr (b ∷ []) = if b == 13 then [] else b ∷ []
strip_cr (b ∷ c ∷ s) = b ∷ strip_cr (c ∷ s)

-- The lines of what stands behind `acc` on the same line.
unfoldable pub lines_from : Text → Text → List Text
lines_from acc [] = if is_empty acc then [] else acc ∷ []
lines_from acc (b ∷ s) =
    let here = lines_from [] s in
    let longer = lines_from (acc ++ b ∷ []) s in if b == 10 then strip_cr acc ∷ here else longer

unfoldable pub lines : Text → List Text
lines s = lines_from [] s

unfoldable pub trim_end_cr : Text → Text
trim_end_cr [] = []
trim_end_cr (b ∷ s) = let rest = trim_end_cr s in if is_empty rest && b == 13 then [] else b ∷ rest

unfoldable pub strip_prefix : Text → Text → Option Text
strip_prefix [] s = some s
strip_prefix (p ∷ ps) [] = none
strip_prefix (p ∷ ps) (b ∷ s) = let rest = strip_prefix ps s in if p == b then rest else none

pub strip_prefix-append : (p s : Text) → strip_prefix p (p ++ s) ≡ some s
unfolding strip_prefix
strip_prefix-append [] s = refl
strip_prefix-append (b ∷ p) s = ground (arith, strip_prefix-append p s)

-- A text without a line feed is one line.
not_line_feed :
    (b : ℕ) (s acc : Text) → b ≢ 10 → lines_from acc (b ∷ s) ≡ lines_from (acc ++ b ∷ []) s
unfolding lines_from
not_line_feed b s acc h = ground arith

some_left : (acc : Text) → is_empty acc ≡ false → lines_from acc [] ≡ acc ∷ []
unfolding lines_from
some_left acc h = rw h refl

append-some : (acc : Text) (b : ℕ) → is_empty (acc ++ b ∷ []) ≡ false
append-some [] b = refl
append-some (a ∷ acc) b = refl

one_line_from :
    (s acc : Text) → All (λ b. b ≢ 10) s → is_empty acc ≡ false → lines_from acc s ≡ (acc ++ s) ∷ []
one_line_from [] acc h ne = rw append-nil (some_left acc ne)
one_line_from (b ∷ s) acc h ne =
    not_line_feed b s acc h.0
    ∙ one_line_from s (acc ++ b ∷ []) h.1 (append-some acc b)
    ∙ ap (λ t. t ∷ []) (append_assoc acc (b ∷ []) s)

pub lines-one : (b : ℕ) (s : Text) → All (λ b. b ≢ 10) (b ∷ s) → lines (b ∷ s) ≡ (b ∷ s) ∷ []
unfolding lines
lines-one b s h = not_line_feed b s [] h.0 ∙ one_line_from s (b ∷ []) h.1 refl

pub trim_end_cr_kept : (s : Text) (b : ℕ) → b ≢ 13 → trim_end_cr (s ++ b ∷ []) ≡ s ++ b ∷ []
unfolding trim_end_cr
trim_end_cr_kept [] b h = ground arith
trim_end_cr_kept (a ∷ s) b h = rw (trim_end_cr, trim_end_cr_kept s b h, append-some s b) refl
