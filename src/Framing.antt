-- ===== src/Framing.antt =====
-- guyos_core/src/ports/outbound/f1_framing.rs, and the error type of
-- guyos_core/src/ports/outbound/guyos_wire_v1_session.rs. `usize` has 64 bits.
pub mod Pop
pub mod RoundTrip
mod Tests
use guyos.Prelude.{
  ℕ, ◌+◌, ◌-◌, ◌^◌, min, Bool, not, Option, none, some, [], ◌++◌, Result, ok, err, length, take,
  drop, ltb, if◌then◌else◌,
}
use guyos.Text.{Bytes, Text, lit, is_empty}
use guyos.Text.Decimal.{to_decimal}
use guyos.Text.Word.{u32_to_be_bytes, from_be_bytes}
use guyos.Text.Utf8.{from_utf8}

pub data GuyosWireV1SessionError : Type 0 where
  frame_too_large : ℕ → ℕ → GuyosWireV1SessionError
  unexpected_eof : GuyosWireV1SessionError
  invalid_utf8 : GuyosWireV1SessionError
  io : Text → GuyosWireV1SessionError

-- `impl fmt::Display`; an I/O error is the text that it prints.
unfoldable fmt_session_error : GuyosWireV1SessionError → Text
fmt_session_error (frame_too_large declared limit) =
    lit "F1 frame payload length "
    ++ (to_decimal declared ++ (lit " exceeds session limit " ++ to_decimal limit))
fmt_session_error unexpected_eof = lit "unexpected end of stream while reading an F1 frame"
fmt_session_error invalid_utf8 = lit "F1 frame payload is not valid UTF-8"
fmt_session_error (io e) = e

abbrev pub max_frame_bytes_adr_v1 : ℕ
max_frame_bytes_adr_v1 = 1_048_576

abbrev pub u32_max : ℕ
u32_max = 2 ^ 32 - 1

abbrev pub usize_max : ℕ
usize_max = 2 ^ 64 - 1

unfoldable pub encode_application_frame : Text → ℕ → Result Bytes GuyosWireV1SessionError
encode_application_frame body max_frame_bytes =
    let declared = length body in
    if ltb u32_max declared
    then err (frame_too_large u32_max max_frame_bytes)
    else if ltb max_frame_bytes declared
    then err (frame_too_large declared max_frame_bytes)
    else ok (u32_to_be_bytes declared ++ body)

pub record F1FrameDecoder : Type 0 where
  pub max_frame_bytes : ℕ
  pub buf : Bytes

abbrev pub new : ℕ → F1FrameDecoder
new max_frame_bytes = record { max_frame_bytes = max_frame_bytes; buf = [] }

unfoldable pub feed : F1FrameDecoder → Bytes → F1FrameDecoder
feed d chunk = record d { buf = d.buf ++ chunk }

-- `4usize.saturating_add(declared)`
abbrev frame_len : ℕ → ℕ
frame_len declared = min (4 + declared) usize_max

-- `String::from_utf8(payload).map_err(|_| InvalidUtf8).map(Some)`
unfoldable pub payload_result : Bytes → Result (Option Text) GuyosWireV1SessionError
payload_result payload = elim (from_utf8 payload) [ none ↦ err invalid_utf8 | some s ↦ ok (some s) ]

unfoldable pub pop_complete_frame :
    F1FrameDecoder → Result (Option Text) GuyosWireV1SessionError × F1FrameDecoder
pop_complete_frame d =
    if ltb (length d.buf) 4
    then (ok none, d)
    else let declared = from_be_bytes (take 4 d.buf) in
      if ltb d.max_frame_bytes declared
      then (err (frame_too_large declared d.max_frame_bytes), d)
      else if ltb (length d.buf) (frame_len declared)
      then (ok none, d)
      else (
        payload_result (drop 4 (take (frame_len declared) d.buf)),
        record d { buf = drop (frame_len declared) d.buf },
      )

unfoldable pub has_buffered_data : F1FrameDecoder → Bool
has_buffered_data d = not (is_empty d.buf)
