-- ===== src/Session/Stream.antt =====
-- What a reader gets of a stream of frames: each body in order, then the end of the stream.
use guyos.Prelude.{
  ℕ, ◌≡◌, refl, ap, ◌∙◌, ◌≤◌, Bool, true, false, none, some, List, [], ◌∷◌, ◌++◌, append-nil, ok,
  arith, length, All,
}
use guyos.Text.{Bytes, Text}
use guyos.Text.Utf8.{is_utf8}
use guyos.Framing.{F1FrameDecoder, feed, pop_complete_frame, u32_max, has_buffered_data}
use guyos.Framing.Pop.{frame, pop-frame, max-pop}
use guyos.Framing.RoundTrip.{payload_result_utf8}
use guyos.Session.{ready, at_end, read_loop, FakeGuyosWireV1Session, read_application_frame}
use guyos.Session.Chunks.{
  flatten, unread, read_loop_done, read_loop_end, read_loop-flatten, buf-feed,
}

abbrev pub frames : List Text → Bytes
frames [] = []
frames (b ∷ bs) = frame b ++ frames bs

-- A body that a session with this limit can carry.
abbrev pub Fits : ℕ → Text → Type 0
Fits max b = (length b ≤ max) × (length b ≤ u32_max) × (is_utf8 b ≡ true)

max-feed : (d : F1FrameDecoder) (c : Bytes) → (feed d c).max_frame_bytes ≡ d.max_frame_bytes
unfolding feed
max-feed d c = refl

max-read_loop :
    (d : F1FrameDecoder) (chunks : List Bytes) (alive : Bool)
    → (read_loop d chunks alive).1.max_frame_bytes ≡ d.max_frame_bytes
unfolding read_loop
max-read_loop d [] alive = ground (arith, max-pop d)
max-read_loop d (c ∷ cs) alive = ground (
  arith,
  max-pop d,
  max-read_loop (feed (pop_complete_frame d).1 c) cs alive,
  max-feed (pop_complete_frame d).1 c,
)

-- What is left to read begins with a frame: the read returns its body and leaves the rest.
read_frame :
    (d : F1FrameDecoder) (chunks : List Bytes) (alive : Bool) (b : Text) (rest : Bytes)
    → Fits d.max_frame_bytes b
    → d.buf ++ flatten chunks ≡ frame b ++ rest
    → ((read_loop d chunks alive).0 ≡ ready (ok (some b)))
      × (unread (read_loop d chunks alive) ≡ rest)
read_frame d chunks alive b rest fits e =
    let whole : F1FrameDecoder = record {
      max_frame_bytes = d.max_frame_bytes;
      buf = frame b ++ rest;
    } in
    let after : F1FrameDecoder = record { max_frame_bytes = d.max_frame_bytes; buf = rest } in
    let fed : feed d (flatten chunks) ≡ whole = unfold feed in ap (λ x. record d { buf = x }) e in
    let popped : pop_complete_frame whole ≡ (ok (some b), after) =
      pop-frame d.max_frame_bytes b rest fits.0 fits.1
      ∙ ap (λ r. (r, after)) (payload_result_utf8 b fits.2) in
    let one : read_loop (feed d (flatten chunks)) [] alive ≡ (ready (ok (some b)), after, []) =
      rw fed (read_loop_done (ok (some b)) whole after [] alive popped (λ q. cc)) in
    let (answer, left) = read_loop-flatten d chunks alive in
    (answer ∙ ap (λ t. t.0) one, left ∙ ap unread one ∙ append-nil rest)

pop_empty : (d : F1FrameDecoder) → d.buf ≡ [] → pop_complete_frame d ≡ (ok none, d)
unfolding pop_complete_frame
pop_empty d e = rw (e, pop_complete_frame)

-- Nothing is left to read, and the peer has closed the stream between frames.
read_nothing :
    (d : F1FrameDecoder) (chunks : List Bytes)
    → d.buf ++ flatten chunks ≡ []
    → (read_loop d chunks false).0 ≡ ready (ok none)
unfolding at_end has_buffered_data
read_nothing d chunks e =
    let nothing : (feed d (flatten chunks)).buf ≡ [] = buf-feed d (flatten chunks) ∙ e in
    (read_loop-flatten d chunks false).0
    ∙ ap (λ t. t.0) (read_loop_end (feed d (flatten chunks)) _ false (pop_empty _ nothing))
    ∙ rw nothing

-- The reads of `s` return these bodies in turn, and then the end of the stream.
abbrev pub Delivers : FakeGuyosWireV1Session → List Text → Type 0
Delivers s [] = (read_application_frame s).0 ≡ ready (ok none)
Delivers s (b ∷ bs) =
    ((read_application_frame s).0 ≡ ready (ok (some b))) × Delivers (read_application_frame s).1 bs

-- What is buffered and queued spells the frames of these bodies, each UTF-8 and within the limit
-- of the decoder and of `u32`, and the peer has gone: the reads return the bodies in turn, in
-- whatever chunks their bytes arrived, and then the end of the stream.
pub Delivers-frames :
    (s : FakeGuyosWireV1Session) (bodies : List Text)
    → s.rx.sender_alive ≡ false
    → All (Fits s.decoder.max_frame_bytes) bodies
    → s.decoder.buf ++ flatten s.rx.queue ≡ frames bodies
    → Delivers s bodies
unfolding read_application_frame
Delivers-frames s [] closed h e = rw closed (read_nothing s.decoder s.rx.queue e)
Delivers-frames s (b ∷ bs) closed h e =
    let (answer, left) = read_frame s.decoder s.rx.queue s.rx.sender_alive b (frames bs) h.0 e in
    let limit = max-read_loop s.decoder s.rx.queue s.rx.sender_alive in
    (answer, Delivers-frames (read_application_frame s).1 bs closed (rw limit h.1) left)
