-- ===== src/Session/Faults.antt =====
-- What a reader gets of a stream that is cut off inside a frame, and of an oversized length prefix.
use guyos.Prelude.{
  ℕ, ◌≡◌, ◌≢◌, refl, sym, ap, ◌∙◌, ◌≤◌, ◌<◌, Bool, false, none, some, List, [], ◌∷◌, ◌++◌,
  append-nil, ok, err, arith, length-append,
}
use guyos.Text.{Bytes, Text}
use guyos.Text.Word.{u32_to_be_bytes, from_be_bytes-u32_to_be_bytes, length-u32_to_be_bytes}
use guyos.Framing.{
  F1FrameDecoder, feed, pop_complete_frame, u32_max, has_buffered_data, unexpected_eof,
  frame_too_large,
}
use guyos.Framing.Pop.{frame, pop-frame, pop-feed, pop_oversize}
use guyos.Session.{ReadResult, ready, at_end, read_loop}
use guyos.Session.Chunks.{flatten, read_loop_done, read_loop_end, read_loop-flatten, buf-feed}
use guyos.Session.Stream.{Fits}

append-ne-nil : (s : Bytes) (x : ℕ) (t : Bytes) → s ++ (x ∷ t) ≢ []
append-ne-nil [] x t e = cc
append-ne-nil (a ∷ s) x t e = cc

module _ (max : ℕ) (b : Text) (front back : Bytes) (x : ℕ) where
  abbrev cut_off : F1FrameDecoder
  cut_off = record { max_frame_bytes = max; buf = front }

  -- The decoder answers nothing on a proper prefix of a frame: another answer would stay the same
  -- when the rest arrives, with the rest left over.
  pop_cut_off :
      Fits max b
      → frame b ≡ front ++ (x ∷ back)
      → (r : ReadResult) (d' : F1FrameDecoder) → pop_complete_frame cut_off ≡ (r, d')
      → r ≢ ok none
      → ⊥
  pop_cut_off fits e r d' p h =
      let later : pop_complete_frame (feed cut_off (x ∷ back)) ≡ (r, feed d' (x ∷ back)) =
        pop-feed cut_off (x ∷ back) r d' p h in
      let whole : feed cut_off (x ∷ back) ≡ record { max_frame_bytes = max; buf = frame b ++ [] } =
        unfold feed in
        ap (λ s. record { max_frame_bytes = max; buf = s }) (sym e ∙ sym (append-nil (frame b))) in
      let full = pop-frame max b [] fits.0 fits.1 in
      append-ne-nil d'.buf x back (
        sym (buf-feed d' (x ∷ back))
        ∙ ap (λ t. t.1.buf) (sym later ∙ ap pop_complete_frame whole ∙ full))

  waits :
      Fits max b
      → frame b ≡ front ++ (x ∷ back)
      → (r : ReadResult) (d' : F1FrameDecoder) → pop_complete_frame cut_off ≡ (r, d')
      → pop_complete_frame cut_off ≡ (ok none, d')
  waits fits e (err k) d' p = absurd (pop_cut_off fits e (err k) d' p (λ q. cc))
  waits fits e (ok (some s)) d' p = absurd (pop_cut_off fits e (ok (some s)) d' p (λ q. cc))
  waits fits e (ok none) d' p = p

  eof_answer : front ≢ [] → at_end cut_off false ≡ ready (err unexpected_eof)
  unfolding at_end has_buffered_data
  eof_answer h = ground arith

-- If the peer closes the stream inside a frame that the session could carry, after its first byte
-- and before its last, the read answers `UnexpectedEof`.
pub read_truncated :
    (d : F1FrameDecoder) (chunks : List Bytes) (b : Text) (front back : Bytes) (x : ℕ)
    → Fits d.max_frame_bytes b
    → frame b ≡ front ++ (x ∷ back)
    → front ≢ []
    → d.buf ++ flatten chunks ≡ front
    → (read_loop d chunks false).0 ≡ ready (err unexpected_eof)
read_truncated d chunks b front back x fits e h left =
    let max = d.max_frame_bytes in
    let fed : feed d (flatten chunks) ≡ cut_off max b front back x =
      unfold feed in ap (λ s. record d { buf = s }) left in
    (read_loop-flatten d chunks false).0
    ∙ ap (λ s. (read_loop s [] false).0) fed
    ∙ ap (λ t. t.0)
        (read_loop_end (cut_off max b front back x) _ false
          (waits max b front back x fits e _ _ refl))
    ∙ eof_answer max b front back x h

-- A length prefix above the limit is refused as soon as its four bytes are there, with or without
-- any byte of the body, and whether or not the peer is still there.
pub read_oversize :
    (d : F1FrameDecoder) (chunks : List Bytes) (alive : Bool) (n : ℕ) (rest : Bytes)
    → d.max_frame_bytes < n
    → n ≤ u32_max
    → d.buf ++ flatten chunks ≡ u32_to_be_bytes n ++ rest
    → (read_loop d chunks alive).0 ≡ ready (err (frame_too_large n d.max_frame_bytes))
read_oversize d chunks alive n rest over word left =
    let whole : F1FrameDecoder = record {
      max_frame_bytes = d.max_frame_bytes;
      buf = u32_to_be_bytes n ++ rest;
    } in
    let fed : feed d (flatten chunks) ≡ whole =
      unfold feed in ap (λ s. record d { buf = s }) left in
    let popped =
      pop_oversize whole n
        (omega (arith, length-append {0} (u32_to_be_bytes n) rest, length-u32_to_be_bytes n))
        (unfold u32_to_be_bytes in from_be_bytes-u32_to_be_bytes n (omega arith)) over in
    (read_loop-flatten d chunks alive).0
    ∙ ap (λ s. (read_loop s [] alive).0) fed
    ∙ ap (λ t. t.0)
        (read_loop_done (err (frame_too_large n d.max_frame_bytes)) whole whole [] alive popped
          (λ q. cc))
