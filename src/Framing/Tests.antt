-- ===== src/Framing/Tests.antt =====
-- Frames of a few bytes.
use guyos.Prelude.{◌≤◌, ◌≡◌, refl, true, [], ◌∷◌, ◌++◌, arith}
use guyos.Text.{Text}
use guyos.Text.Word.{from_be_bytes}
use guyos.Text.Utf8.{is_utf8, from_utf8}
use guyos.Framing.{F1FrameDecoder, new, pop_complete_frame, payload_result}
use guyos.Framing.Pop.{frame}
use guyos.Framing.RoundTrip.{pop_sound}

-- "é", two bytes of UTF-8.
abbrev body : Text
body = 0xC3 ∷ 0xA9 ∷ []

abbrev filled : F1FrameDecoder
filled = record { max_frame_bytes = 16; buf = 0 ∷ 0 ∷ 0 ∷ 2 ∷ body }

pop_sound_example :
    (filled.buf ≡ frame body ++ [])
    × (2 ≤ 16)
    × (is_utf8 body ≡ true)
    × ((new 16).max_frame_bytes ≡ filled.max_frame_bytes)
unfolding pop_complete_frame payload_result from_utf8 is_utf8 from_be_bytes
pop_sound_example =
    pop_sound filled (new 16) body
      (omega arith, (omega arith, (omega arith, (omega arith, (omega arith, (omega arith, tt))))))
      refl
