-- ===== src/Ticket/Shape.antt =====
-- The scan of the text, the parts of the 57 bytes, and what a decoded ticket must be.
use guyos.Prelude.{
  ℕ, ◌≡◌, refl, false, [], ◌∷◌, ◌++◌, ok, err, length, take, drop, arith, All, length-append,
  take-append_eq, drop-append_eq, take_whole, take-append-drop, append_assoc, length-take,
  length-drop, ap, sym, ◌∙◌,
}
use guyos.Text.{Bytes, Text}
use guyos.Crates.Crypto.{IsBase64Url}
use guyos.Ticket.{ticket_decode_failed, pad_strict_scan, is_base64url_byte, slice}

-- A text of the alphabet passes the scan.
pub pad_strict_scan-alphabet : (s : Text) → All IsBase64Url s → pad_strict_scan s ≡ ok tt
unfolding pad_strict_scan
pad_strict_scan-alphabet [] h = refl
pad_strict_scan-alphabet (b ∷ s) h = ground (arith, pad_strict_scan-alphabet s h.1)

-- One byte outside the alphabet stops it.
pub pad_strict_scan_refuses :
    (s t : Text) (b : ℕ)
    → is_base64url_byte b ≡ false
    → pad_strict_scan (s ++ b ∷ t) ≡ err ticket_decode_failed
unfolding pad_strict_scan
pad_strict_scan_refuses [] t b h = ground arith
pad_strict_scan_refuses (a ∷ s) t b h = ground (arith, pad_strict_scan_refuses s t b h)

module _ (v : ℕ) (room expires sig : Bytes) (room16 : length room ≡ 16) (exp8 : length expires ≡ 8)
    (sig32 : length sig ≡ 32) where
  abbrev body : Bytes
  body = v ∷ (room ++ expires)

  length-body : length body ≡ 25
  length-body = omega (arith, length-append {0} room expires)

  pub slice-body : slice 0 25 (body ++ sig) ≡ body
  unfolding slice
  slice-body = take-append_eq 25 body sig length-body

  pub slice_sig : slice 25 57 (body ++ sig) ≡ sig
  unfolding slice
  slice_sig =
      ap (drop 25)
        (take_whole 57 (body ++ sig) (omega (arith, length-append {0} body sig, length-body)))
      ∙ drop-append_eq 25 body sig length-body

  pub slice_expires : slice 17 25 body ≡ expires
  unfolding slice
  slice_expires =
      ap (drop 17) (take_whole 25 body (omega (arith, length-body)))
      ∙ drop-append_eq 16 room expires room16

  pub slice-room : slice 1 17 body ≡ room
  unfolding slice
  slice-room = take-append_eq 16 room expires room16

-- 57 bytes are a version, a room, an expiry and a signature.
pub binary_parts :
    (s : Bytes)
    → length s ≡ 57
    → (v : ℕ) × (room : Bytes) × (expires : Bytes) × (sig : Bytes) × (s
        ≡ (v ∷ (room ++ expires)) ++ sig)
      × (length room ≡ 16)
      × (length expires ≡ 8)
      × (length sig ≡ 32)
binary_parts [] h = absurd (omega arith)
binary_parts (v ∷ t) h = (
  v,
  take 16 t,
  take 8 (drop 16 t),
  drop 8 (drop 16 t),
  ap (λ u. v ∷ u)
      (sym (take-append-drop 16 t)
        ∙ ap (λ u. take 16 t ++ u) (sym (take-append-drop 8 (drop 16 t)))
        ∙ sym (append_assoc (take 16 t) _ _)),
  omega (arith, length-take {0} 16 t),
  omega (arith, length-take {0} 8 (drop 16 t), length-drop {0} 16 t),
  omega (arith, length-drop {0} 8 (drop 16 t), length-drop {0} 16 t),
)
