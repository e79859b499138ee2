-- ===== src/Llm/Client.antt =====
-- guyos_core/src/llm.rs: the types of the requests and of their answers, `OpenAiCompatClient` and
-- `run_streaming_reply`. The crates for URLs, HTTP and JSON are parameters. An error is the text that it
-- prints: with a context, that is the context.
pub mod Calling
pub mod Relayed
mod Tests
use guyos.Prelude.{
  ℕ, suc, ◌+◌, Bool, true, false, ◌&&◌, ◌||◌, not, Option, none, some, List, [], ◌∷◌, ◌++◌, Result,
  ok, err, ◌>>=◌, ok_or, fail_if, ◌>>◌, leb, ltb, if◌then◌else◌,
}
use guyos.Text.{Bytes, Text, lit, is_empty}
use guyos.Text.Decimal.{to_decimal}
use guyos.Llm.{
  HistoryMessage, LlmRelayConfig, OpenAiMessage, chat_messages, done, delta_text, ClockedItem,
  stream_reply,
}
use guyos.Llm.Sse.{ChatCompletionsChunk, Item, SseStream, new_sse}
use guyos.Llm.Sse.Polling.{ByteStream, unpolled}
use guyos.Llm.Sse.Waking.{await_times}
use guyos.Session.{Poll}

pub record ChatCompletionsRequest : Type 0 where
  pub model : Text
  pub messages : List OpenAiMessage
  pub stream : Bool

pub record ChatCompletionsResponseMessage : Type 0 where
  pub content : Text

pub record ChatCompletionsResponseChoice : Type 0 where
  pub message : ChatCompletionsResponseMessage

pub record ChatCompletionsResponse : Type 0 where
  pub choices : List ChatCompletionsResponseChoice

-- What reqwest gives of an answer: its status, its text, what its JSON is read as, and its bytes as they
-- arrive, up to the end or an error.
pub record HttpAnswer : Type 0 where
  pub status : ℕ
  pub text : Option Text
  pub json : Option ChatCompletionsResponse
  pub arrivals : List (Poll Bytes)
  pub ending : Option Text

-- `resp.bytes_stream()`
abbrev pub bytes_stream : HttpAnswer → ByteStream
bytes_stream resp = unpolled resp.arrivals resp.ending

-- `Url`, `reqwest::Client`, and serde_json on a chunk.
pub record LlmCrates : Type 1 where
  pub Url : Type 0
  pub parse : Text → Option Url
  pub cannot_be_a_base : Url → Bool
  pub pop_if_empty : Url → Url
  pub extend : Url → List Text → Url
  -- `post(url).json(&req).send()`
  pub post : Url → ChatCompletionsRequest → Option HttpAnswer
  pub from_str : Text → Result ChatCompletionsChunk Text

-- `StatusCode::is_success`
abbrev pub is_success : ℕ → Bool
is_success status = leb 200 status && ltb status 300

abbrev pub unwrap_or_default : Option Text → Text
unwrap_or_default none = []
unwrap_or_default (some t) = t

unfoldable pub http_error : HttpAnswer → Text
http_error resp =
    lit "llm http error " ++ to_decimal resp.status ++ lit ": " ++ unwrap_or_default resp.text

-- `parsed.choices.get(0).map(...).unwrap_or_default()`
abbrev pub first_message : List ChatCompletionsResponseChoice → Text
first_message [] = []
first_message (c ∷ cs) = c.message.content

module _ (L : LlmCrates) where
  unfoldable pub completions_url : Text → Result L.Url Text
  completions_url base_url = do
    url ← ok_or (lit "invalid --llm-base-url") (L.parse base_url)
    fail_if (L.cannot_be_a_base url) (lit "invalid --llm-base-url path")
    ok (L.extend (L.pop_if_empty url) (lit "chat" ∷ lit "completions" ∷ []))

  -- The call and the check of its status, which both requests make.
  unfoldable pub call : Text → ChatCompletionsRequest → Result HttpAnswer Text
  unfolding completions_url
  call base_url req = do
    url ← completions_url base_url
    resp ← ok_or (lit "failed to call OpenAI-compatible API") (L.post url req)
    fail_if (not (is_success resp.status)) (http_error resp)
    ok resp

  unfoldable pub stream_chat_completions :
      Text → ChatCompletionsRequest → Result (SseStream ByteStream) Text
  stream_chat_completions base_url req = do
    resp ← call base_url req
    ok (new_sse (bytes_stream resp))

  unfoldable pub chat_completions : Text → ChatCompletionsRequest → Result Text Text
  chat_completions base_url req = do
    resp ← call base_url req
    parsed ← ok_or (lit "failed to parse chat completions response") resp.json
    ok (first_message parsed.choices)

  abbrev pub request : LlmRelayConfig → List HistoryMessage → Bool → ChatCompletionsRequest
  request cfg history stream = record {
    model = cfg.model;
    messages = chat_messages cfg history;
    stream = stream;
  }

  -- What a run gives: its result, and the texts that it has given to `chat.send`.
  abbrev pub Outcome : Type 0
  Outcome = Result (Unit {0}) Text × List Text

  abbrev pub send_whole : Result Text Text → Outcome
  send_whole (err e) = (err e, [])
  send_whole (ok text) = (ok tt, if is_empty text then [] else text ∷ [])

  -- The items with what the clock shows at each of them.
  abbrev pub clocked : (ℕ → ℕ) → (ℕ → ℕ) → ℕ → List Item → List ClockedItem
  clocked checked_at sent_at i [] = []
  clocked checked_at sent_at i (item ∷ items) =
      record { item = item; checked_at = checked_at i; sent_at = sent_at i }
      ∷ clocked checked_at sent_at (i + 1) items

  -- An item behind which the reply asks for no more.
  abbrev is_last : Item → Bool
  is_last (ok done) = true
  is_last (ok (delta_text t)) = false
  is_last (err e) = true

  abbrev pub any_last : List Item → Bool
  any_last [] = false
  any_last (item ∷ items) = is_last item || any_last items

  module _ (cfg : LlmRelayConfig) (now : ℕ) (checked_at sent_at : ℕ → ℕ) where
    -- The reply over what the task has got; `none` when it waits for more, or is never woken.
    abbrev pub reply_to : List Item × Bool → Option Outcome
    reply_to (items, end) =
        if any_last items || end
        then some (stream_reply cfg now (clocked checked_at sent_at 0 items))
        else none

    abbrev pub streamed : ℕ → Result (SseStream ByteStream) Text → Option Outcome
    streamed polls (err e) = some (err e, [])
    streamed polls (ok s) = reply_to (await_times L.from_str polls s)

    -- With at most this many polls of the stream, each behind an item or a wake.
    unfoldable pub run_streaming_reply : ℕ → List HistoryMessage → Option Outcome
    run_streaming_reply polls history =
        if cfg.stream
        then streamed polls (stream_chat_completions cfg.base_url (request cfg history true))
        else some (send_whole (chat_completions cfg.base_url (request cfg history false)))
