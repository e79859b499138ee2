-- ===== src/Llm.antt =====
-- guyos_core/src/llm.rs: the prompt and the throttled reply of `run_streaming_reply` and the search for
-- the end of an event; and the rolling history of guyos_core/src/main.rs. Instants and durations are
-- numbers of nanoseconds.
pub mod History
pub mod Reply
pub mod Search
pub mod Events
pub mod Sse
pub mod Client
mod Tests
use guyos.Prelude.{
  ℕ, ◌+◌, ◌-◌, Bool, true, false, ◌&&◌, Option, none, some, List, [], ◌∷◌, ◌++◌, Result, ok, err,
  length, leb, ltb, ◌==◌, if◌then◌else◌, drop, take,
}
use guyos.Text.{Bytes, Text, lit, text_eq, is_empty}

pub record HistoryMessage : Type 0 where
  pub from : Text
  pub text : Text

-- `LlmRelayConfig`.
pub record LlmRelayConfig : Type 0 where
  pub assistant_name : Text
  pub base_url : Text
  pub model : Text
  pub system_prompt : Option Text
  pub context : ℕ
  pub stream : Bool
  pub stream_chunk_min_chars : ℕ
  pub stream_interval : ℕ

-- `while history.len() > cfg.context { history.pop_front(); }`
unfoldable pub trim_history : ℕ → List HistoryMessage → List HistoryMessage
trim_history context [] = []
trim_history context (m ∷ ms) =
    let rest = trim_history context ms in if ltb context (length (m ∷ ms)) then rest else m ∷ ms

-- What the relay loop does with its history for one incoming message.
unfoldable pub update_history :
    LlmRelayConfig → List HistoryMessage → HistoryMessage → List HistoryMessage
update_history cfg history msg = trim_history cfg.context (history ++ msg ∷ [])

pub data OpenAiRole : Type 0 where
  system user assistant : OpenAiRole

pub record OpenAiMessage : Type 0 where
  pub role : OpenAiRole
  pub content : Text

abbrev pub role_of : LlmRelayConfig → HistoryMessage → OpenAiRole
role_of cfg m = if text_eq m.from cfg.assistant_name then assistant else user

-- The `for m in history` loop.
unfoldable pub push_history : LlmRelayConfig → List HistoryMessage → List OpenAiMessage
push_history cfg [] = []
push_history cfg (m ∷ history) =
    record { role = role_of cfg m; content = m.text } ∷ push_history cfg history

unfoldable pub chat_messages : LlmRelayConfig → List HistoryMessage → List OpenAiMessage
chat_messages cfg history = elim cfg.system_prompt [
  | none ↦ push_history cfg history
  | some s ↦ record { role = system; content = s } ∷ push_history cfg history
]

pub data ChatCompletionsStreamEvent : Type 0 where
  delta_text : Text → ChatCompletionsStreamEvent
  done : ChatCompletionsStreamEvent

-- An item of the stream, with what the clock shows at `last_send.elapsed()` and at the `Instant::now()`
-- behind it. The error is printed by its crate.
pub record ClockedItem : Type 0 where
  pub item : Result ChatCompletionsStreamEvent Text
  pub checked_at : ℕ
  pub sent_at : ℕ

-- `format!("(partial) {partial}")`
unfoldable pub partial : Text → Text
partial text = lit "(partial) " ++ text

-- "Flush remainder."
unfoldable pub flush : Bool → Text → List Text
flush sent_any_partial acc =
    if is_empty acc then [] else if sent_any_partial then partial acc ∷ [] else acc ∷ []

-- The `while let` and what follows it: the result and the texts given to `chat.send`, whose answers
-- the code drops.
unfoldable pub reply_loop :
    LlmRelayConfig → Text → ℕ → Bool → List ClockedItem → Result (Unit {0}) Text × List Text
unfolding flush
reply_loop cfg acc last_send sent_any_partial [] = (ok tt, flush sent_any_partial acc)
reply_loop cfg acc last_send sent_any_partial (ev ∷ evs) = elim ev.item [
  | err e ↦ (err e, [])
  | ok done ↦ (ok tt, flush sent_any_partial acc)
  | ok (delta_text delta) ↦
      elim (leb cfg.stream_chunk_min_chars (length (acc ++ delta))
        && leb cfg.stream_interval (ev.checked_at - last_send)) [
          | true ↦
              let (r, sends) = reply_loop cfg [] ev.sent_at true evs in
              (r, partial (acc ++ delta) ∷ sends)
          | false ↦ reply_loop cfg (acc ++ delta) last_send sent_any_partial evs
        ]
]

-- `Instant::now().checked_sub(cfg.stream_interval).unwrap_or_else(Instant::now)`
abbrev first_last_send : LlmRelayConfig → ℕ → ℕ
first_last_send cfg now = if leb cfg.stream_interval now then now - cfg.stream_interval else now

-- The streamed branch of `run_streaming_reply` once the request has been answered.
unfoldable pub stream_reply :
    LlmRelayConfig → ℕ → List ClockedItem → Result (Unit {0}) Text × List Text
unfolding reply_loop
stream_reply cfg now evs = reply_loop cfg [] (first_last_send cfg now) false evs

-- The two tests of the loop at one position, `buf` from there on.
unfoldable pub is_crlf_delimiter : Bytes → Bool
is_crlf_delimiter (a ∷ b ∷ c ∷ d ∷ s) = a == 13 && b == 10 && c == 13 && d == 10
is_crlf_delimiter s = false

unfoldable pub is_lf_delimiter : Bytes → Bool
is_lf_delimiter (a ∷ b ∷ s) = a == 10 && b == 10
is_lf_delimiter s = false

-- The loop over `i`, from `i` on.
unfoldable pub find_from : ℕ → Bytes → Option ℕ
find_from i [] = none
find_from i (b ∷ s) =
    let rest = find_from (i + 1) s in
    if is_crlf_delimiter (b ∷ s) then some i else if is_lf_delimiter (b ∷ s) then some i else rest

unfoldable pub find_event_delimiter : Bytes → Option ℕ
unfolding find_from
find_event_delimiter buf = find_from 0 buf

-- The event at the front of the buffer, and the buffer once the delimiter has been drained too.
unfoldable pub take_event : Bytes → Option (Bytes × Bytes)
take_event buf = elim (find_event_delimiter buf) [
  | none ↦ none
  | some idx ↦
      let rest = drop idx buf in
      some (take idx buf, drop (if is_crlf_delimiter rest then 4 else 2) rest)
]
