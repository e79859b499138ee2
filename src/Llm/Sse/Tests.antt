-- ===== src/Llm/Sse/Tests.antt =====
-- Two chunks of bytes with a delay between them, and an event that is cut in two.
use guyos.Prelude.{
  ◌≡◌, ◌↔◌, ◌⊎◌, inr, refl, arith, true, false, none, some, List, [], ◌∷◌, ◌++◌, Result, ok, err,
}
use guyos.Text.{Text, Bytes, lit, text_eq}
use guyos.Text.Utf8.{lead}
use guyos.Text.Lossy.{from_utf8_lossy}
use guyos.Text.Lines.{lines, lines_from, trim_end_cr, strip_prefix}
use guyos.Text.Trim.{trim}
use guyos.Session.{Poll, ready, pending}
use guyos.Llm.{delta_text, take_event, find_event_delimiter, is_crlf_delimiter, is_lf_delimiter}
use guyos.Llm.Sse.{
  ChatCompletionsChunk, SseStream, new_sse, poll_next, parse_event, line_item, data_item,
}
use guyos.Llm.Sse.Draining.{events}
use guyos.Llm.Sse.Polling.{
  unpolled, ByteStream, poll_bytes, bytes_of, poll_times, poll_times-events,
}
use guyos.Llm.Sse.Pending.{HasWaker, HasNoWaker, poll_next-pending_iff}
use guyos.Llm.Sse.Waking.{Timely}

-- A reader that takes the whole text for the content.
abbrev from_str : Text → Result ChatCompletionsChunk Text
from_str t = ok (record { choices = record { delta = record { content = some t } } ∷ [] })

abbrev arrivals : List (Poll Bytes)
arrivals =
    ready (b'd' ∷ b'a' ∷ b't' ∷ [])
    ∷ pending
    ∷ ready (b'a' ∷ b':' ∷ b'H' ∷ 10 ∷ 10 ∷ b'x' ∷ [])
    ∷ []

parse_cut : events from_str (bytes_of arrivals) ≡ ok (delta_text (b'H' ∷ [])) ∷ []
unfolding events parse_event take_event find_event_delimiter is_crlf_delimiter is_lf_delimiter
    from_utf8_lossy lines line_item lit trim_end_cr strip_prefix trim data_item text_eq lines_from
    lead
parse_cut = refl

poll_times-events_example :
    poll_times from_str 6 (new_sse (unpolled arrivals (some (b'e' ∷ []))))
    ≡ (events from_str (bytes_of arrivals) ++ err (b'e' ∷ []) ∷ [], true)
poll_times-events_example =
    poll_times-events from_str 6 arrivals (some (b'e' ∷ [])) (rw parse_cut (omega arith))

-- A chunk has come, more is there, and yet the stream waits.
abbrev waiting : SseStream ByteStream
waiting = new_sse (unpolled (ready (b'd' ∷ []) ∷ ready (10 ∷ 10 ∷ []) ∷ []) none)

abbrev stalled : SseStream ByteStream
stalled = record {
  inner = unpolled (ready (10 ∷ 10 ∷ []) ∷ []) none;
  buf = b'd' ∷ [];
  done = false;
}

poll_next-pending_iff_example : (poll_next from_str poll_bytes waiting ≡ (pending, stalled)) ↔ (
    (waiting.done ≡ false)
    × (take_event waiting.buf ≡ none)
    × (HasWaker from_str poll_bytes waiting (poll_bytes waiting.inner) stalled
        ⊎ HasNoWaker from_str poll_bytes waiting (poll_bytes waiting.inner) stalled))
poll_next-pending_iff_example = poll_next-pending_iff from_str poll_bytes waiting stalled

stalls : poll_next from_str poll_bytes waiting ≡ (pending, stalled)
unfolding new_sse take_event find_event_delimiter is_crlf_delimiter is_lf_delimiter
stalls =
    poll_next-pending_iff_example.1 (refl, refl, inr (b'd' ∷ [], stalled.inner, refl, refl, refl))

-- The first chunk has no event, and the task is never woken.
not-Timely : ¬ Timely [] arrivals
unfolding take_event find_event_delimiter is_crlf_delimiter is_lf_delimiter
not-Timely t = t.0 refl
