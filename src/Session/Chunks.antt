-- ===== src/Session/Chunks.antt =====
-- A reader sees the bytes of the stream and not the chunks in which they arrive.
use guyos.Prelude.{
  ◌≡◌, ◌≢◌, refl, sym, ap, ◌∙◌, Bool, none, some, List, [], ◌∷◌, ◌++◌, append-nil, append_assoc, ok,
  err, arith,
}
use guyos.Text.{Bytes}
use guyos.Framing.{F1FrameDecoder, feed, pop_complete_frame}
use guyos.Framing.Pop.{pop-feed, pop_waits}
use guyos.Session.{Poll, ReadResult, ready, at_end, read_loop}

abbrev pub flatten : List Bytes → Bytes
flatten [] = []
flatten (c ∷ cs) = c ++ flatten cs

-- What the decoder holds followed by what is still in the queue.
abbrev pub unread : Poll ReadResult × F1FrameDecoder × List Bytes → Bytes
unread t = t.1.buf ++ flatten t.2

-- The same answer, and the same bytes still to be read.
abbrev pub SameRead :
    Poll ReadResult × F1FrameDecoder × List Bytes
    → Poll ReadResult × F1FrameDecoder × List Bytes
    → Type 0
SameRead t u = (t.0 ≡ u.0) × (unread t ≡ unread u)

-- An answer of the decoder other than "more bytes are needed" is the answer of the read.
pub read_loop_done :
    (r : ReadResult) (d d' : F1FrameDecoder) (queue : List Bytes) (alive : Bool)
    → pop_complete_frame d ≡ (r, d')
    → r ≢ ok none
    → read_loop d queue alive ≡ (ready r, d', queue)
unfolding read_loop
read_loop_done (err e) d d' [] alive p h = ground arith
read_loop_done (err e) d d' (c ∷ cs) alive p h = ground arith
read_loop_done (ok none) d d' queue alive p h = absurd (h refl)
read_loop_done (ok (some f)) d d' [] alive p h = ground arith
read_loop_done (ok (some f)) d d' (c ∷ cs) alive p h = ground arith

pub read_loop_end :
    (d d' : F1FrameDecoder) (alive : Bool)
    → pop_complete_frame d ≡ (ok none, d')
    → read_loop d [] alive ≡ (at_end d alive, d, [])
unfolding read_loop
read_loop_end d d' alive p = ground (arith, pop_waits d d' p)

pub read_loop_more :
    (d d' : F1FrameDecoder) (c : Bytes) (cs : List Bytes) (alive : Bool)
    → pop_complete_frame d ≡ (ok none, d')
    → read_loop d (c ∷ cs) alive ≡ read_loop (feed d c) cs alive
unfolding read_loop
read_loop_more d d' c cs alive p = ground (arith, pop_waits d d' p)

pub feed-nil : (d : F1FrameDecoder) → feed d [] ≡ d
unfolding feed
feed-nil d = ap (λ b. record d { buf = b }) (append-nil d.buf)

feed-feed : (d : F1FrameDecoder) (a b : Bytes) → feed (feed d a) b ≡ feed d (a ++ b)
unfolding feed
feed-feed d a b = ap (λ x. record d { buf = x }) (append_assoc d.buf a b)

pub buf-feed : (d : F1FrameDecoder) (a : Bytes) → (feed d a).buf ≡ d.buf ++ a
unfolding feed
buf-feed d a = refl

finished :
    (d d' : F1FrameDecoder) (c : Bytes) (cs : List Bytes) (alive : Bool) (r : ReadResult)
    → pop_complete_frame d ≡ (r, d')
    → r ≢ ok none
    → SameRead (read_loop d (c ∷ cs) alive) (read_loop (feed d (c ++ flatten cs)) [] alive)
finished d d' c cs alive r p h =
    rw
      (
        read_loop_done r d d' (c ∷ cs) alive p h,
        read_loop_done r (feed d (c ++ flatten cs)) (feed d' (c ++ flatten cs)) [] alive
            (pop-feed d (c ++ flatten cs) r d' p h) h,
      )
      (refl, sym (append-nil _ ∙ buf-feed d' (c ++ flatten cs)))

read_case :
    (d : F1FrameDecoder) (c : Bytes) (cs : List Bytes) (alive : Bool) (r : ReadResult)
    (d' : F1FrameDecoder)
    → pop_complete_frame d ≡ (r, d')
    → SameRead (read_loop (feed d c) cs alive) (read_loop (feed (feed d c) (flatten cs)) [] alive)
    → SameRead (read_loop d (c ∷ cs) alive) (read_loop (feed d (c ++ flatten cs)) [] alive)
read_case d c cs alive (ok none) d' p ih =
    rw (read_loop_more d d' c cs alive p, ← feed-feed d c (flatten cs)) ih
read_case d c cs alive (err e) d' p ih = finished d d' c cs alive (err e) p (λ q. cc)
read_case d c cs alive (ok (some f)) d' p ih = finished d d' c cs alive (ok (some f)) p (λ q. cc)

-- A read over a queue of chunks answers as a read over all their bytes in one piece, and leaves
-- the same bytes unread.
pub read_loop-flatten :
    (d : F1FrameDecoder) (chunks : List Bytes) (alive : Bool)
    → SameRead (read_loop d chunks alive) (read_loop (feed d (flatten chunks)) [] alive)
read_loop-flatten d [] alive = rw (feed-nil d) (refl, refl)
read_loop-flatten d (c ∷ cs) alive =
    let (r, d') = pop_complete_frame d in
    read_case d c cs alive r d' refl (read_loop-flatten (feed d c) cs alive)
