-- ===== src/Text/Trim.antt =====
-- `str::trim`: the characters with the property White_Space, at both ends of a text.
use guyos.Prelude.{
  ℕ, zero, suc, ◌≤◌, ◌<◌, ◌≡◌, refl, ap, ◌∙◌, Bool, false, ◌&&◌, ◌||◌, [], ◌∷◌, ◌++◌, arith, ◌==◌,
  leb, if◌then◌else◌,
}
use guyos.Text.{Text}

-- White space by the length of its encoding.
is_white1 : ℕ → Bool
is_white1 a = (leb 9 a && leb a 13) || a == 32

is_white2 : ℕ → ℕ → Bool
is_white2 a b = a == 0xc2 && (b == 0x85 || b == 0xa0)

is_white3 : ℕ → ℕ → ℕ → Bool
is_white3 a b c =
    (a == 0xe1 && b == 0x9a && c == 0x80)
    || (a == 0xe2 && b == 0x80 && (leb 0x80 c && leb c 0x8a || c == 0xa8 || c == 0xa9 || c == 0xaf))
    || (a == 0xe2 && b == 0x81 && c == 0x9f)
    || (a == 0xe3 && b == 0x80 && c == 0x80)

-- The length of the white space character at the front, 0 if there is none.
white_len : Text → ℕ
unfolding is_white1 is_white2 is_white3
white_len [] = 0
white_len (a ∷ []) = if is_white1 a then 1 else 0
white_len (a ∷ b ∷ []) = if is_white1 a then 1 else if is_white2 a b then 2 else 0
white_len (a ∷ b ∷ c ∷ s) =
    if is_white1 a then 1 else if is_white2 a b then 2 else if is_white3 a b c then 3 else 0

-- The same for a text that is read from its end.
white_len_back : Text → ℕ
unfolding is_white1 is_white2 is_white3
white_len_back [] = 0
white_len_back (c ∷ []) = if is_white1 c then 1 else 0
white_len_back (c ∷ b ∷ []) = if is_white1 c then 1 else if is_white2 b c then 2 else 0
white_len_back (c ∷ b ∷ a ∷ s) =
    if is_white1 c then 1 else if is_white2 b c then 2 else if is_white3 a b c then 3 else 0

-- The text without the white space at its front, `k` bytes of a character still to go.
skip_white : (Text → ℕ) → ℕ → Text → Text
skip_white len k [] = []
skip_white len (suc k) (b ∷ s) = skip_white len k s
skip_white len zero (b ∷ s) = elim (len (b ∷ s)) [ zero ↦ b ∷ s | suc k ↦ skip_white len k s ]

abbrev reverse_onto : Text → Text → Text
reverse_onto [] acc = acc
reverse_onto (b ∷ s) acc = reverse_onto s (b ∷ acc)

abbrev reverse : Text → Text
reverse s = reverse_onto s []

unfoldable pub trim : Text → Text
unfolding skip_white white_len white_len_back
trim s = reverse (skip_white white_len_back 0 (reverse (skip_white white_len 0 s)))

reverse_onto-reverse_onto :
    (s t acc : Text) → reverse_onto (reverse_onto s t) acc ≡ reverse_onto t (s ++ acc)
reverse_onto-reverse_onto [] t acc = refl
reverse_onto-reverse_onto (b ∷ s) t acc = reverse_onto-reverse_onto s (b ∷ t) acc

reverse_onto-append :
    (s t acc : Text) → reverse_onto (s ++ t) acc ≡ reverse_onto t (reverse_onto s acc)
reverse_onto-append [] t acc = refl
reverse_onto-append (b ∷ s) t acc = reverse_onto-append s t (b ∷ acc)

-- A printing ASCII character.
abbrev pub IsGraphic : ℕ → Type 0
IsGraphic b = (33 ≤ b) × (b < 127)

not_white : (b : ℕ) → IsGraphic b → (is_white1 b ≡ false) × ((b == 0xc2) ≡ false)
unfolding is_white1
not_white b h = (ground arith, ground arith)

graphic-white2 : (a b : ℕ) → IsGraphic b → is_white2 a b ≡ false
unfolding is_white2
graphic-white2 a b h = ground arith

white2-graphic : (a b : ℕ) → IsGraphic a → is_white2 a b ≡ false
unfolding is_white2
white2-graphic a b h = ground arith

graphic-white3 : (a b c : ℕ) → IsGraphic c → is_white3 a b c ≡ false
unfolding is_white3
graphic-white3 a b c h = ground arith

white3-graphic : (a b c : ℕ) → IsGraphic a → is_white3 a b c ≡ false
unfolding is_white3
white3-graphic a b c h = ground arith

white_len_graphic : (b : ℕ) (s : Text) → IsGraphic b → white_len (b ∷ s) ≡ 0
unfolding white_len
white_len_graphic b [] h = rw (not_white b h).0 refl
white_len_graphic b (c ∷ []) h = rw ((not_white b h).0, white2-graphic b c h) refl
white_len_graphic b (c ∷ d ∷ s) h =
    rw ((not_white b h).0, white2-graphic b c h, white3-graphic b c d h) refl

white_len_back_graphic : (b : ℕ) (s : Text) → IsGraphic b → white_len_back (b ∷ s) ≡ 0
unfolding white_len_back
white_len_back_graphic b [] h = rw (not_white b h).0 refl
white_len_back_graphic b (c ∷ []) h = rw ((not_white b h).0, graphic-white2 c b h) refl
white_len_back_graphic b (c ∷ d ∷ s) h =
    rw ((not_white b h).0, graphic-white2 c b h, graphic-white3 d c b h) refl

white_len_space : (s : Text) → white_len (32 ∷ s) ≡ 1
unfolding white_len is_white1
white_len_space [] = refl
white_len_space (c ∷ []) = refl
white_len_space (c ∷ d ∷ s) = refl

skip_none : (len : Text → ℕ) (b : ℕ) (s : Text) → len (b ∷ s) ≡ 0 → skip_white len 0 (b ∷ s) ≡ b ∷ s
unfolding skip_white
skip_none len b s h = rw (skip_white, h) refl

skip_one :
    (len : Text → ℕ) (b : ℕ) (s : Text)
    → len (b ∷ s) ≡ 1
    → skip_white len 0 (b ∷ s) ≡ skip_white len 0 s
unfolding skip_white
skip_one len b s h = rw (skip_white, h) refl

abbrev trim_end : Text → Text
trim_end s = reverse (skip_white white_len_back 0 (reverse s))

trim_end_graphic :
    (b c : ℕ) (s : Text) → IsGraphic c → trim_end (b ∷ (s ++ c ∷ [])) ≡ b ∷ (s ++ c ∷ [])
trim_end_graphic b c s h =
    ap (λ t. reverse (skip_white white_len_back 0 t)) (reverse_onto-append s (c ∷ []) (b ∷ []))
    ∙ ap reverse (
        skip_none white_len_back c (reverse_onto s (b ∷ []))
          (white_len_back_graphic c (reverse_onto s (b ∷ [])) h))
    ∙ reverse_onto-reverse_onto s (b ∷ []) (c ∷ [])

-- A space in front of a text that begins and ends with printing characters is all that is cut.
pub trim_graphic :
    (b c : ℕ) (s : Text)
    → IsGraphic b
    → IsGraphic c
    → trim (32 ∷ b ∷ (s ++ c ∷ [])) ≡ b ∷ (s ++ c ∷ [])
unfolding trim
trim_graphic b c s hb hc =
    ap trim_end (
      skip_one white_len 32 (b ∷ (s ++ c ∷ [])) (white_len_space (b ∷ (s ++ c ∷ [])))
      ∙ skip_none white_len b (s ++ c ∷ []) (white_len_graphic b (s ++ c ∷ []) hb))
    ∙ trim_end_graphic b c s hc
