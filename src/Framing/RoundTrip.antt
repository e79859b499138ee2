-- ===== src/Framing/RoundTrip.antt =====
-- What `encode_application_frame` accepts and writes, and what the decoder makes of it.
use mathlib.Core.Path.{ap₂}
use guyos.Prelude.{
  ℕ, ◌+◌, ◌≤◌, ◌≡◌, sym, ap, ◌∙◌, ◌++◌, true, some, ok, length, take, drop, arith, All,
  take-append-drop, take-take_le, length-take, length-drop,
}
use guyos.Text.{Bytes, Text, IsByte}
use guyos.Text.Word.{u32_to_be_bytes, from_be_bytes, u32_to_be_bytes-take, from_be_bytes-lt}
use guyos.Text.Utf8.{is_utf8, from_utf8_eq, from_utf8_inv}
use guyos.Framing.{
  F1FrameDecoder, new, u32_max, feed, payload_result, pop_complete_frame, encode_application_frame,
}
use guyos.Framing.Pop.{frame, pop-frame, pop_case, short, oversize, complete}

-- A body within the limit and within `u32` is written as its frame.
pub encode-frame :
    (body : Text) (max : ℕ)
    → length body ≤ max
    → length body ≤ u32_max
    → encode_application_frame body max ≡ ok (frame body)
unfolding encode_application_frame
encode-frame body max fits word = ground arith

-- Nothing else is.
pub encode-frame_inv :
    (body : Text) (max : ℕ) (wire : Bytes)
    → encode_application_frame body max ≡ ok wire
    → (wire ≡ frame body) × (length body ≤ max) × (length body ≤ u32_max)
unfolding encode_application_frame
encode-frame_inv body max wire h = ground arith

pub payload_result_utf8 : (s : Text) → is_utf8 s ≡ true → payload_result s ≡ ok (some s)
unfolding payload_result
payload_result_utf8 s u = rw (from_utf8_eq s u, payload_result)

-- The decoder gives back a UTF-8 body that was encoded under its own limit, and keeps the bytes
-- that follow the frame.
pub pop-encode :
    (body : Text) (max : ℕ) (wire rest : Bytes)
    → is_utf8 body ≡ true
    → encode_application_frame body max ≡ ok wire
    → pop_complete_frame (feed (new max) (wire ++ rest))
      ≡ (ok (some body), record { max_frame_bytes = max; buf = rest })
unfolding feed
pop-encode body max wire rest u h =
    let (e, fits, word) = encode-frame_inv body max wire h in
    rw e (pop-frame max body rest fits word ∙ rw (payload_result_utf8 body u))

payload_result_inv : (p s : Text) → payload_result p ≡ ok (some s) → (s ≡ p) × (is_utf8 p ≡ true)
unfolding payload_result
payload_result_inv p s h = ground (arith, from_utf8_inv p s)

-- The front of the buffer up to `4 + n` is the frame of its bytes from the fifth on.
frame-take :
    (buf : Bytes) (n : ℕ)
    → All IsByte buf
    → from_be_bytes (take 4 buf) ≡ n
    → 4 + n ≤ length buf
    → take (4 + n) buf ≡ frame (drop 4 (take (4 + n) buf))
frame-take buf n b e h =
    sym (take-append-drop 4 (take (4 + n) buf))
    ∙ ap (λ front. front ++ drop 4 (take (4 + n) buf))
        (take-take_le 4 (4 + n) buf (omega arith)
          ∙ sym (u32_to_be_bytes-take buf (omega arith) b)
          ∙ ap u32_to_be_bytes (
              e ∙ omega (arith, length-drop {0} 4 (take (4 + n) buf), length-take {0} (4 + n) buf)))

-- A body that the decoder returns from a buffer of bytes is valid UTF-8 and within the limit, its
-- frame stands at the front of the buffer, and the bytes behind it are those that stay buffered.
pub pop_sound :
    (d d' : F1FrameDecoder) (s : Text)
    → All IsByte d.buf
    → pop_complete_frame d ≡ (ok (some s), d')
    → (d.buf ≡ frame s ++ d'.buf)
      × (length s ≤ d.max_frame_bytes)
      × (is_utf8 s ≡ true)
      × (d'.max_frame_bytes ≡ d.max_frame_bytes)
pop_sound d d' s b e = elim (pop_case d) [
  | short p ↦ cc (e, p)
  | oversize n h k over p ↦ cc (e, p)
  | complete n len h k fits m enough p ↦
      let len_eq : len ≡ 4 + n = omega (arith, from_be_bytes-lt d.buf b) in
      let (s_eq, u) = payload_result_inv (drop 4 (take len d.buf)) s (ap (λ t. t.0) (sym p ∙ e)) in
      let left : record d { buf = drop len d.buf } ≡ d' = ap (λ t. t.1) (sym p ∙ e) in
      let body : take (4 + n) d.buf ≡ frame s =
        frame-take d.buf n b k (omega arith) ∙ ap frame (rw (← len_eq) (sym s_eq)) in
      (
        sym (take-append-drop len d.buf)
            ∙ ap₂ (λ x y. x ++ y) (rw len_eq body) (ap (λ t. t.buf) left),
        omega
            (arith, ap length s_eq, length-drop {0} 4 (take len d.buf), length-take {0} len d.buf),
        rw s_eq u,
        ap (λ t. t.max_frame_bytes) (sym left),
      )
]
