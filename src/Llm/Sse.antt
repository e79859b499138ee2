-- ===== src/Llm/Sse.antt =====
-- guyos_core/src/llm.rs: `try_parse_one_sse_event` and `SseStream`. The derived reader of a chunk and the
-- stream of bytes below are parameters; errors are the texts that they print.
pub mod Draining
pub mod Polling
pub mod Served
pub mod Pending
pub mod Left
pub mod Waking
mod Tests
use guyos.Prelude.{
  Bool, true, false, Option, none, some, List, [], ◌∷◌, ◌++◌, Result, ok, err, if◌then◌else◌,
}
use guyos.Text.{Bytes, Text, lit, text_eq}
use guyos.Text.Lossy.{from_utf8_lossy}
use guyos.Text.Lines.{lines, trim_end_cr, strip_prefix}
use guyos.Text.Trim.{trim}
use guyos.Session.{Poll, ready, pending}
use guyos.Llm.{ChatCompletionsStreamEvent, delta_text, done, take_event}

pub record ChatCompletionsDelta : Type 0 where
  pub content : Option Text

pub record ChatCompletionsChoice : Type 0 where
  pub delta : ChatCompletionsDelta

pub record ChatCompletionsChunk : Type 0 where
  pub choices : List ChatCompletionsChoice

-- `chunk.choices.get(0).and_then(|c| c.delta.content.clone())`
abbrev pub first_content : List ChatCompletionsChoice → Option Text
first_content [] = none
first_content (c ∷ cs) = c.delta.content

abbrev pub Item : Type 0
Item = Result ChatCompletionsStreamEvent Text

-- `serde_json::from_str::<ChatCompletionsChunk>`
module _ (from_str : Text → Result ChatCompletionsChunk Text) where
  -- What a chunk makes the loop return; `none` goes on with the next line.
  abbrev pub chunk_item : Result ChatCompletionsChunk Text → Option Item
  chunk_item (err e) = some (err e)
  chunk_item (ok chunk) = elim (first_content chunk.choices) [
    | none ↦ none
    | some content ↦ some (ok (delta_text content))
  ]

  unfoldable pub data_item : Text → Option Item
  data_item payload =
      if text_eq payload (lit "[DONE]") then some (ok done) else chunk_item (from_str payload)

  -- The body of the loop over the lines.
  unfoldable pub line_item : Text → Option Item
  unfolding data_item
  line_item line = elim (strip_prefix (lit "data:") (trim_end_cr line)) [
    | none ↦ none
    | some rest ↦ data_item (trim rest)
  ]

  unfoldable pub lines_item : List Text → Item
  unfolding line_item
  lines_item [] = ok (delta_text [])
  lines_item (line ∷ more) = elim (line_item line) [ none ↦ lines_item more | some item ↦ item ]

  unfoldable pub parse_event : Bytes → Item
  unfolding lines_item
  parse_event event = lines_item (lines (from_utf8_lossy event))

  -- The answer and the buffer that is left.
  unfoldable pub try_parse_one_sse_event : Bytes → Option Item × Bytes
  unfolding parse_event
  try_parse_one_sse_event buf = elim (take_event buf) [
    | none ↦ (none, buf)
    | some (event, rest) ↦ (some (parse_event event), rest)
  ]

pub record SseStream (S : Type 0) : Type 0 where
  pub inner : S
  pub buf : Bytes
  pub done : Bool

unfoldable pub new_sse : {S : Type 0} → S → SseStream S
new_sse inner = record { inner = inner; buf = []; done = false }

module _ (from_str : Text → Result ChatCompletionsChunk Text) {S : Type 0}
    (inner_poll_next : S → Poll (Option (Result Bytes Text)) × S) where
  -- Behind a chunk: the parse, and `Pending` when it gives no event.
  abbrev after_chunk : SseStream S → Option Item × Bytes → Poll (Option Item) × SseStream S
  after_chunk s (some item, buf) = (ready (some item), record s { buf = buf })
  after_chunk s (none, buf) = (pending, record s { buf = buf })

  -- `match Pin::new(&mut self.inner).poll_next(cx)`
  unfoldable pub read_more :
      SseStream S → Poll (Option (Result Bytes Text)) × S → Poll (Option Item) × SseStream S
  unfolding try_parse_one_sse_event
  read_more s (ready (some (ok chunk)), inner) =
      after_chunk (record s { inner = inner }) (try_parse_one_sse_event from_str (s.buf ++ chunk))
  read_more s (ready (some (err e)), inner) =
      (ready (some (err e)), record s { inner = inner; done = true })
  read_more s (ready none, inner) = (ready none, record s { inner = inner; done = true })
  read_more s (pending, inner) = (pending, record s { inner = inner })

  abbrev from_buffer : SseStream S → Option Item × Bytes → Poll (Option Item) × SseStream S
  from_buffer s (some item, buf) = (ready (some item), record s { buf = buf })
  from_buffer s (none, buf) = read_more (record s { buf = buf }) (inner_poll_next s.inner)

  unfoldable pub poll_next : SseStream S → Poll (Option Item) × SseStream S
  poll_next s =
      if s.done then (ready none, s) else from_buffer s (try_parse_one_sse_event from_str s.buf)
