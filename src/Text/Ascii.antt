-- ===== src/Text/Ascii.antt =====
-- `to_ascii_uppercase` and `make_ascii_lowercase`.
use guyos.Prelude.{ℕ, ◌+◌, ◌-◌, ◌≤◌, ◌≡◌, ◌⊎◌, refl, [], ◌∷◌, ◌&&◌, arith, leb, if◌then◌else◌, All}
use guyos.Text.{Text}

unfoldable pub to_ascii_lowercase : Text → Text
to_ascii_lowercase [] = []
to_ascii_lowercase (b ∷ s) = (if leb 65 b && leb b 90 then b + 32 else b) ∷ to_ascii_lowercase s

unfoldable pub to_ascii_uppercase : Text → Text
to_ascii_uppercase [] = []
to_ascii_uppercase (b ∷ s) = (if leb 97 b && leb b 122 then b - 32 else b) ∷ to_ascii_uppercase s

-- The alphabet of RFC 4648, section 6.
abbrev pub IsBase32 : ℕ → Type 0
IsBase32 b = ((65 ≤ b) × (b ≤ 90)) ⊎ ((50 ≤ b) × (b ≤ 55))

pub uppercase-lowercase :
    (s : Text) → All IsBase32 s → to_ascii_uppercase (to_ascii_lowercase s) ≡ s
unfolding to_ascii_lowercase to_ascii_uppercase
uppercase-lowercase [] h = refl
uppercase-lowercase (b ∷ s) h = ground (arith, uppercase-lowercase s h.1)

pub uppercase-uppercase :
    (s : Text) → to_ascii_uppercase (to_ascii_uppercase s) ≡ to_ascii_uppercase s
unfolding to_ascii_uppercase
uppercase-uppercase [] = refl
uppercase-uppercase (b ∷ s) = ground (arith, uppercase-uppercase s)
