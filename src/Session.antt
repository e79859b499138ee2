-- ===== src/Session.antt =====
-- guyos_core/src/ports/outbound/fake_guyos_wire_v1_session.rs: one end of a session over byte
-- channels. A tokio channel is its queue, its capacity and whether its two ends are alive; an
-- `await` that waits for the peer answers `pending` and changes nothing.
pub mod Chunks
pub mod Stream
pub mod Faults
pub mod Pair
mod Tests
use guyos.Prelude.{
  ℕ, Bool, true, false, Option, none, some, List, [], ◌∷◌, ◌++◌, Result, ok, err, length, ltb,
  if◌then◌else◌,
}
use guyos.Text.{Bytes, Text, lit}
use guyos.Framing.{
  GuyosWireV1SessionError, unexpected_eof, io, F1FrameDecoder, new, feed, pop_complete_frame,
  has_buffered_data, encode_application_frame, max_frame_bytes_adr_v1,
}

pub record Channel : Type 0 where
  pub queue : List Bytes
  pub capacity : ℕ
  pub sender_alive : Bool
  pub receiver_alive : Bool

pub data Poll (A : Type 0) : Type 0 where
  ready : A → Poll A
  pending : Poll A

-- `mpsc::channel(capacity)`
abbrev channel : ℕ → Channel
channel n = record { queue = []; capacity = n; sender_alive = true; receiver_alive = true }

pub record FakeGuyosWireV1Session : Type 0 where
  pub max_frame_bytes : ℕ
  pub decoder : F1FrameDecoder
  pub rx : Channel
  pub tx : Channel

abbrev pub ReadResult : Type 0
ReadResult = Result (Option Text) GuyosWireV1SessionError

-- What a read answers when the decoder wants more and the queue is empty.
unfoldable pub at_end : F1FrameDecoder → Bool → Poll ReadResult
at_end d true = pending
at_end d false = if has_buffered_data d then ready (err unexpected_eof) else ready (ok none)

-- The `loop`: each round takes a chunk off the queue or ends. The result is the answer, the decoder
-- and the chunks that were not received.
unfoldable pub read_loop :
    F1FrameDecoder → List Bytes → Bool → Poll ReadResult × F1FrameDecoder × List Bytes
read_loop d [] alive =
    let (r, d') = pop_complete_frame d in
    elim r [
      | err e ↦ (ready (err e), d', [])
      | ok (some frame) ↦ (ready (ok (some frame)), d', [])
      | ok none ↦ (at_end d' alive, d', [])
    ]
read_loop d (c ∷ cs) alive =
    let (r, d') = pop_complete_frame d in
    elim r [
      | err e ↦ (ready (err e), d', c ∷ cs)
      | ok (some frame) ↦ (ready (ok (some frame)), d', c ∷ cs)
      | ok none ↦ read_loop (feed d' c) cs alive
    ]

unfoldable pub read_application_frame :
    FakeGuyosWireV1Session → Poll ReadResult × FakeGuyosWireV1Session
unfolding read_loop
read_application_frame s =
    let (r, d, queue) = read_loop s.decoder s.rx.queue s.rx.sender_alive in
    (r, record s { decoder = d; rx = record s.rx { queue = queue } })

-- `tx.send(chunk).await`: an error if the receiver is gone, `pending` while the queue is full.
unfoldable pub send_raw_chunk :
    FakeGuyosWireV1Session
    → Bytes
    → Poll (Result (Unit {0}) GuyosWireV1SessionError) × FakeGuyosWireV1Session
send_raw_chunk s chunk =
    if s.tx.receiver_alive
    then (if ltb (length s.tx.queue) s.tx.capacity
        then (ready (ok tt), record s { tx = record s.tx { queue = s.tx.queue ++ chunk ∷ [] } })
        else (pending, s))
    else (ready (err (io (lit "send channel closed"))), s)

unfoldable pub write_application_frame :
    FakeGuyosWireV1Session
    → Text
    → Poll (Result (Unit {0}) GuyosWireV1SessionError) × FakeGuyosWireV1Session
unfolding send_raw_chunk encode_application_frame
write_application_frame s body = elim (encode_application_frame body s.max_frame_bytes) [
  | err e ↦ (ready (err e), s)
  | ok wire ↦ send_raw_chunk s wire
]

-- The two ends share two channels: what one end sends is the other's `rx`.
unfoldable pub paired_with_max_frame_bytes : ℕ → FakeGuyosWireV1Session × FakeGuyosWireV1Session
paired_with_max_frame_bytes limit =
    let end : FakeGuyosWireV1Session = record {
      max_frame_bytes = limit;
      decoder = new limit;
      rx = channel 64;
      tx = channel 64;
    } in
    (end, end)

unfoldable pub paired : FakeGuyosWireV1Session × FakeGuyosWireV1Session
unfolding paired_with_max_frame_bytes
paired = paired_with_max_frame_bytes max_frame_bytes_adr_v1

-- `b` once its peer `a` has been dropped: the channel that `a` sent on, seen from its other end.
abbrev pub after_drop : FakeGuyosWireV1Session → FakeGuyosWireV1Session → FakeGuyosWireV1Session
after_drop a b = record b { rx = record a.tx { sender_alive = false } }
