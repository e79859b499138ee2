-- ===== src/Llm/Client/Calling.antt =====
-- The calls of `OpenAiCompatClient` in guyos_core/src/llm.rs: what they ask and when they succeed.
use guyos.Prelude.{
  ℕ, ◌≤◌, ◌<◌, ◌≡◌, refl, ap, ◌∙◌, Bool, true, false, Option, some, List, [], ◌∷◌, Result, ok,
  arith, if◌then◌else◌,
}
use guyos.Text.{Text, lit}
use guyos.Llm.{HistoryMessage, LlmRelayConfig, chat_messages}
use guyos.Llm.Sse.{SseStream, new_sse}
use guyos.Llm.Sse.Polling.{ByteStream}
use guyos.Llm.Client.{
  bytes_stream, LlmCrates, HttpAnswer, ChatCompletionsRequest, is_success, completions_url, call,
  stream_chat_completions, chat_completions, request, Outcome, send_whole, streamed,
  run_streaming_reply,
}

-- What the server is asked.
abbrev pub asked : LlmRelayConfig → List HistoryMessage → Bool → ChatCompletionsRequest
asked cfg history stream = record {
  model = cfg.model;
  messages = chat_messages cfg history;
  stream = stream;
}

module _ (L : LlmCrates) where
  abbrev pub at_completions : L.Url → L.Url
  at_completions base = L.extend (L.pop_if_empty base) (lit "chat" ∷ lit "completions" ∷ [])

  -- The server under this URL answers the request with a success.
  abbrev pub Answers : Text → ChatCompletionsRequest → HttpAnswer → Type 0
  Answers base_url req resp =
      (base : L.Url) × (L.parse base_url ≡ some base)
      × (L.cannot_be_a_base base ≡ false)
      × (L.post (at_completions base) req ≡ some resp)
      × (200 ≤ resp.status)
      × (resp.status < 300)

  url_ok :
      (base_url : Text) (base : L.Url)
      → L.parse base_url ≡ some base
      → L.cannot_be_a_base base ≡ false
      → completions_url L base_url ≡ ok (at_completions base)
  unfolding completions_url
  url_ok base_url base parsed usable = rw (completions_url, parsed, usable) refl

  success : (status : ℕ) → 200 ≤ status → status < 300 → is_success status ≡ true
  success status low high = ground arith

  pub call_ok :
      (base_url : Text) (req : ChatCompletionsRequest) (resp : HttpAnswer)
      → Answers base_url req resp
      → call L base_url req ≡ ok resp
  unfolding call
  call_ok base_url req resp (base, parsed, usable, posted, low, high) =
      rw (call, url_ok base_url base parsed usable, posted, success resp.status low high) refl

  pub stream_ok :
      (base_url : Text) (req : ChatCompletionsRequest) (resp : HttpAnswer)
      → call L base_url req ≡ ok resp
      → stream_chat_completions L base_url req ≡ ok (new_sse (bytes_stream resp))
  unfolding stream_chat_completions
  stream_ok base_url req resp h = rw (stream_chat_completions, h) refl

  module _ (cfg : LlmRelayConfig) (now : ℕ) (checked_at sent_at : ℕ → ℕ) where
    -- The two modes of a run.
    abbrev run_mode : ℕ → List HistoryMessage → Bool → Option (Outcome L)
    run_mode polls history stream =
        if stream
        then streamed L cfg now checked_at sent_at polls
            (stream_chat_completions L cfg.base_url (request L cfg history true))
        else some (send_whole L (chat_completions L cfg.base_url (request L cfg history false)))

    module _ (polls : ℕ) (history : List HistoryMessage) where
      pub run_streamed :
          (r : Result (SseStream ByteStream) Text)
          → cfg.stream ≡ true
          → stream_chat_completions L cfg.base_url (request L cfg history true) ≡ r
          → run_streaming_reply L cfg now checked_at sent_at polls history
            ≡ streamed L cfg now checked_at sent_at polls r
      unfolding run_streaming_reply
      run_streamed r h e =
          ap (run_mode polls history) h ∙ ap (streamed L cfg now checked_at sent_at polls) e
