-- ===== src/Session/Tests.antt =====
-- One end writes, the other reads.
use guyos.Prelude.{◌≡◌, refl, true, false, err, List, [], ◌∷◌, arith}
use guyos.Text.{Bytes, Text}
use guyos.Text.Word.{u32_to_be_bytes}
use guyos.Text.Utf8.{is_utf8}
use guyos.Framing.{new, feed, frame_too_large, unexpected_eof}
use guyos.Session.{
  FakeGuyosWireV1Session, ready, read_loop, write_application_frame, paired, after_drop,
}
use guyos.Session.Chunks.{SameRead, flatten, read_loop-flatten}
use guyos.Session.Stream.{Delivers}
use guyos.Session.Pair.{reads_what_was_written}
use guyos.Session.Faults.{read_truncated, read_oversize}

abbrev hi : Text
hi = b'h' ∷ b'i' ∷ []

abbrev yo : Text
yo = b'y' ∷ b'o' ∷ []

abbrev writer : FakeGuyosWireV1Session
writer = paired.0

abbrev written_twice : FakeGuyosWireV1Session
written_twice = (write_application_frame (write_application_frame writer hi).1 yo).1

reads_what_was_written_example : Delivers (after_drop written_twice paired.1) (hi ∷ yo ∷ [])
unfolding paired write_application_frame is_utf8
reads_what_was_written_example =
    reads_what_was_written writer written_twice paired.1 (hi ∷ yo ∷ []) refl refl refl
      (refl, (refl, tt)) (refl, (refl, refl))

-- The bytes of a frame in three pieces, the second one empty.
abbrev pieces : List Bytes
pieces = (0 ∷ 0 ∷ []) ∷ [] ∷ (0 ∷ 2 ∷ b'h' ∷ b'i' ∷ 7 ∷ []) ∷ []

read_loop-flatten_example :
    SameRead (read_loop (new 16) pieces true) (read_loop (feed (new 16) (flatten pieces)) [] true)
read_loop-flatten_example = read_loop-flatten (new 16) pieces true

read_truncated_example :
    (read_loop (new 16) ((0 ∷ 0 ∷ []) ∷ (0 ∷ 2 ∷ b'h' ∷ []) ∷ []) false).0
    ≡ ready (err unexpected_eof)
unfolding is_utf8 u32_to_be_bytes
read_truncated_example =
    read_truncated (new 16) ((0 ∷ 0 ∷ []) ∷ (0 ∷ 2 ∷ b'h' ∷ []) ∷ []) hi (0 ∷ 0 ∷ 0 ∷ 2 ∷ b'h' ∷ [])
      [] b'i' (omega arith, omega arith, refl) refl (λ e. cc) refl

read_oversize_example :
    (read_loop (new 16) ((0 ∷ 0 ∷ []) ∷ (0 ∷ 17 ∷ []) ∷ []) true).0
    ≡ ready (err (frame_too_large 17 16))
unfolding u32_to_be_bytes
read_oversize_example =
    read_oversize (new 16) ((0 ∷ 0 ∷ []) ∷ (0 ∷ 17 ∷ []) ∷ []) true 17 [] (omega arith)
      (omega arith) refl
