-- ===== src/Framing/Pop.antt =====
-- What `pop_complete_frame` answers, branch by branch.
use mathlib.Core.Path.{ap₂}
use guyos.Prelude.{
  ℕ, ◌+◌, ◌≤◌, ◌<◌, ◌≡◌, ◌≢◌, refl, sym, ap, ◌∙◌, min, ◌++◌, Option, none, inl, inr, Result, ok,
  err, length, take, drop, arith, length-append, take-append_length, drop-append_length,
  take-append_le, drop-append_le, ltb, le→ltb, ltb→le, lt→ltb, ltb→lt, Bool-cases, Option-cases,
}
use guyos.Text.{Bytes, Text}
use guyos.Text.Word.{
  u32_to_be_bytes, from_be_bytes, from_be_bytes-u32_to_be_bytes, length-u32_to_be_bytes,
}
use guyos.Text.Utf8.{from_utf8}
use guyos.Framing.{
  GuyosWireV1SessionError, frame_too_large, F1FrameDecoder, u32_max, usize_max, feed,
  payload_result, pop_complete_frame,
}

-- With the prefix and the body in the buffer the frame is taken off.
pop_ready :
    (d : F1FrameDecoder) (n : ℕ)
    → from_be_bytes (take 4 d.buf) ≡ n
    → n ≤ d.max_frame_bytes
    → n ≤ u32_max
    → 4 + n ≤ length d.buf
    → pop_complete_frame d
      ≡ (payload_result (drop 4 (take (4 + n) d.buf)), record d { buf = drop (4 + n) d.buf })
unfolding pop_complete_frame
pop_ready d n e fits word enough = rw (
  le→ltb (length d.buf) 4 (omega arith),
  e,
  le→ltb d.max_frame_bytes n fits,
  let m : min (4 + n) usize_max ≡ 4 + n = omega arith in m,
  le→ltb (length d.buf) (4 + n) enough,
)

-- The frame of `body` is its length in four bytes and the bytes themselves.
abbrev pub frame : Bytes → Bytes
frame body = u32_to_be_bytes (length body) ++ body

module _ (max : ℕ) (body rest : Bytes) (fits : length body ≤ max)
    (word : length body ≤ u32_max) where
  length-frame : 4 + length body ≡ length (frame body)
  length-frame = omega (
    arith,
    length-append {0} (u32_to_be_bytes (length body)) body,
    length-u32_to_be_bytes (length body),
  )

  prefix-frame : take 4 (frame body ++ rest) ≡ u32_to_be_bytes (length body)
  unfolding u32_to_be_bytes
  prefix-frame = refl

  payload-frame : drop 4 (frame body) ≡ body
  unfolding u32_to_be_bytes
  payload-frame = refl

  -- A whole frame is taken off the front of the buffer, whatever follows it.
  pub pop-frame :
      pop_complete_frame (record { max_frame_bytes = max; buf = frame body ++ rest })
      ≡ (payload_result body, record { max_frame_bytes = max; buf = rest })
  pop-frame =
      pop_ready (record { max_frame_bytes = max; buf = frame body ++ rest }) (length body)
        (rw prefix-frame (from_be_bytes-u32_to_be_bytes (length body) (omega arith))) fits word
        (omega (arith, length-append {0} (frame body) rest, length-frame))
      ∙ rw (length-frame, take-append_length, drop-append_length, payload-frame)

-- The three ways in which a call of `pop_complete_frame` ends.
pub data PopCase (d : F1FrameDecoder) : Type 0 where
  short : pop_complete_frame d ≡ (ok none, d) → PopCase d
  oversize :
      (n : ℕ)
      → 4 ≤ length d.buf
      → from_be_bytes (take 4 d.buf) ≡ n
      → d.max_frame_bytes < n
      → pop_complete_frame d ≡ (err (frame_too_large n d.max_frame_bytes), d)
      → PopCase d
  complete :
      (n len : ℕ)
      → 4 ≤ length d.buf
      → from_be_bytes (take 4 d.buf) ≡ n
      → n ≤ d.max_frame_bytes
      → min (4 + n) usize_max ≡ len
      → len ≤ length d.buf
      → pop_complete_frame d
        ≡ (payload_result (drop 4 (take len d.buf)), record d { buf = drop len d.buf })
      → PopCase d

pub pop_case : (d : F1FrameDecoder) → PopCase d
unfolding pop_complete_frame
pop_case d = elim (Bool-cases (ltb (length d.buf) 4)) [
  | inl e ↦ short (rw e)
  | inr e ↦
      let n = from_be_bytes (take 4 d.buf) in
      let len = min (4 + n) usize_max in
      elim (Bool-cases (ltb d.max_frame_bytes n)) [
        | inl over ↦ oversize n (ltb→le _ _ e) refl (ltb→lt _ _ over) (rw (e, over))
        | inr fits ↦ elim (Bool-cases (ltb (length d.buf) len)) [
          | inl more ↦ short (rw (e, fits, more))
          | inr enough ↦
              complete n len (ltb→le _ _ e) refl (ltb→le _ _ fits) refl (ltb→le _ _ enough)
                (rw (e, fits, enough))
        ]
      ]
]

pub pop_oversize :
    (d : F1FrameDecoder) (n : ℕ)
    → 4 ≤ length d.buf
    → from_be_bytes (take 4 d.buf) ≡ n
    → d.max_frame_bytes < n
    → pop_complete_frame d ≡ (err (frame_too_large n d.max_frame_bytes), d)
unfolding pop_complete_frame
pop_oversize d n h k over = rw (le→ltb (length d.buf) 4 h, k, lt→ltb d.max_frame_bytes n over)

pop_complete :
    (d : F1FrameDecoder) (n len : ℕ)
    → 4 ≤ length d.buf
    → from_be_bytes (take 4 d.buf) ≡ n
    → n ≤ d.max_frame_bytes
    → min (4 + n) usize_max ≡ len
    → len ≤ length d.buf
    → pop_complete_frame d
      ≡ (payload_result (drop 4 (take len d.buf)), record d { buf = drop len d.buf })
unfolding pop_complete_frame
pop_complete d n len h k fits m enough = rw (
  le→ltb (length d.buf) 4 h,
  k,
  le→ltb d.max_frame_bytes n fits,
  m,
  le→ltb (length d.buf) len enough,
)

module _ (d : F1FrameDecoder) (chunk : Bytes) where
  prefix-feed :
      (n : ℕ)
      → 4 ≤ length d.buf
      → from_be_bytes (take 4 d.buf) ≡ n
      → from_be_bytes (take 4 (d.buf ++ chunk)) ≡ n
  prefix-feed n h e = rw (take-append_le 4 d.buf chunk h) e

  longer : (n : ℕ) → n ≤ length d.buf → n ≤ length (d.buf ++ chunk)
  longer n h = omega (arith, length-append {0} d.buf chunk)

  -- An answer other than "more bytes are needed" does not change when more bytes arrive, and the
  -- new bytes stand behind those that are left.
  pub pop-feed :
      (r : Result (Option Text) GuyosWireV1SessionError) (d' : F1FrameDecoder)
      → pop_complete_frame d ≡ (r, d')
      → r ≢ ok none
      → pop_complete_frame (feed d chunk) ≡ (r, feed d' chunk)
  unfolding feed
  pop-feed r d' e done = elim (pop_case d) [
    | short p ↦ absurd (done (ap (λ t. t.0) (sym e ∙ p)))
    | oversize n h k over p ↦
        pop_oversize (feed d chunk) n (longer 4 h) (prefix-feed n h k) over
        ∙ ap (λ t. (t.0, feed t.1 chunk)) (sym p ∙ e)
    | complete n len h k fits m enough p ↦
        pop_complete (feed d chunk) n len (longer 4 h) (prefix-feed n h k) fits m
          (longer len enough)
        ∙ ap₂ (λ front back. (payload_result (drop 4 front), record d { buf = back }))
            (take-append_le len d.buf chunk enough) (drop-append_le len d.buf chunk enough)
        ∙ ap (λ t. (t.0, feed t.1 chunk)) (sym p ∙ e)
  ]

payload_result-ne-waits : (s : Bytes) → payload_result s ≢ ok none
unfolding payload_result
payload_result-ne-waits s = elim (Option-cases (from_utf8 s)) [
  | inl e ↦ rw (e, payload_result) (λ p. cc)
  | inr (t, e) ↦ rw (e, payload_result) (λ p. cc)
]

-- "More bytes are needed" leaves the decoder as it is.
pub pop_waits : (d d' : F1FrameDecoder) → pop_complete_frame d ≡ (ok none, d') → d' ≡ d
pop_waits d d' e = elim (pop_case d) [
  | short p ↦ ap (λ t. t.1) (sym e ∙ p)
  | oversize n h k over p ↦ ap (λ t. t.1) (sym e ∙ p)
  | complete n len h k fits m enough p ↦
      absurd (payload_result-ne-waits (drop 4 (take len d.buf)) (ap (λ t. t.0) (sym p ∙ e)))
]

-- A call does not change the limit.
pub max-pop : (d : F1FrameDecoder) → (pop_complete_frame d).1.max_frame_bytes ≡ d.max_frame_bytes
max-pop d = elim (pop_case d) [
  | short p ↦ ap (λ t. t.1.max_frame_bytes) p
  | oversize n h k over p ↦ ap (λ t. t.1.max_frame_bytes) p
  | complete n len h k fits m enough p ↦ ap (λ t. t.1.max_frame_bytes) p
]
