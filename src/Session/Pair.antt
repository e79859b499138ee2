-- ===== src/Session/Pair.antt =====
-- What one end of a session writes and the other reads.
use guyos.Prelude.{
  ◌≡◌, refl, sym, ap, ◌∙◌, ◌≤◌, ◌<◌, true, List, [], ◌∷◌, ◌++◌, append-nil, append_assoc, ok, err,
  arith, length, All,
}
use guyos.Text.{Bytes, Text}
use guyos.Text.Utf8.{is_utf8}
use guyos.Framing.{u32_max, frame_too_large}
use guyos.Framing.Pop.{frame}
use guyos.Session.{ready, FakeGuyosWireV1Session, write_application_frame, after_drop}
use guyos.Session.Chunks.{flatten}
use guyos.Session.Stream.{Fits, frames, Delivers, Delivers-frames}

abbrev pub queued : FakeGuyosWireV1Session → Bytes → FakeGuyosWireV1Session
queued a chunk = record a { tx = record a.tx { queue = a.tx.queue ++ chunk ∷ [] } }

-- A write that succeeds has put the frame of its body behind the queue, and the body fits.
pub write_inv :
    (a : FakeGuyosWireV1Session) (body : Text)
    → (write_application_frame a body).0 ≡ ready (ok tt)
    → ((write_application_frame a body).1 ≡ queued a (frame body))
      × (length body ≤ a.max_frame_bytes)
      × (length body ≤ u32_max)
unfolding write_application_frame
write_inv a body h = ground arith

-- A body above the limit is refused and nothing is sent.
pub write_too_large :
    (a : FakeGuyosWireV1Session) (body : Text)
    → a.max_frame_bytes < length body
    → length body ≤ u32_max
    → write_application_frame a body
      ≡ (ready (err (frame_too_large (length body) a.max_frame_bytes)), a)
unfolding write_application_frame
write_too_large a body h k = ground arith

-- The bodies were written in this order, and each write succeeded.
abbrev pub Writes : FakeGuyosWireV1Session → List Text → FakeGuyosWireV1Session → Type 0
Writes a [] a' = a ≡ a'
Writes a (b ∷ bs) a' =
    ((write_application_frame a b).0 ≡ ready (ok tt)) × Writes (write_application_frame a b).1 bs a'

flatten-snoc : (cs : List Bytes) (c : Bytes) → flatten (cs ++ c ∷ []) ≡ flatten cs ++ c
flatten-snoc [] c = append-nil c
flatten-snoc (b ∷ cs) c = ap (λ s. b ++ s) (flatten-snoc cs c) ∙ sym (append_assoc b (flatten cs) c)

flatten-Writes :
    (a a' : FakeGuyosWireV1Session) (bodies : List Text)
    → All (λ b. is_utf8 b ≡ true) bodies
    → Writes a bodies a'
    → (flatten a'.tx.queue ≡ flatten a.tx.queue ++ frames bodies)
      × All (Fits a.max_frame_bytes) bodies
flatten-Writes a a' [] u w = (ap (λ s. flatten s.tx.queue) (sym w) ∙ sym (append-nil _), tt)
flatten-Writes a a' (b ∷ bs) u (done, more) =
    let (state, fits, word) = write_inv a b done in
    let (bytes, all) = flatten-Writes (queued a (frame b)) a' bs u.1 (rw state at more) in
    (bytes ∙ rw (flatten-snoc, append_assoc), ((fits, word, u.0), all))

-- If an end that had sent nothing wrote these UTF-8 bodies and every write succeeded, the other
-- end, with the same limit and nothing buffered, reads the same bodies in the same order, and
-- then the end of the stream once the writer is gone.
pub reads_what_was_written :
    (a a' b : FakeGuyosWireV1Session) (bodies : List Text)
    → a.tx.queue ≡ []
    → b.decoder.buf ≡ []
    → b.decoder.max_frame_bytes ≡ a.max_frame_bytes
    → All (λ t. is_utf8 t ≡ true) bodies
    → Writes a bodies a'
    → Delivers (after_drop a' b) bodies
reads_what_was_written a a' b bodies fresh empty same u w =
    let (bytes, all) = flatten-Writes a a' bodies u w in
    Delivers-frames (after_drop a' b) bodies refl (rw same all) (
      ap (λ s. s ++ flatten a'.tx.queue) empty ∙ bytes ∙ ap (λ q. flatten q ++ frames bodies) fresh)
