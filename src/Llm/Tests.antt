-- ===== src/Llm/Tests.antt =====
-- A reply in two pieces, a history of two messages, and an event with bytes behind it.
use guyos.Prelude.{◌≡◌, ◌↔◌, refl, true, false, none, some, List, [], ◌∷◌, ◌++◌, ok}
use guyos.Text.{Text, Bytes}
use guyos.Llm.{
  HistoryMessage, LlmRelayConfig, delta_text, done, ClockedItem, partial, stream_reply, take_event,
  trim_history, update_history,
}
use guyos.Llm.History.{history_after}
use guyos.Llm.Reply.{Says, stream_reply-Says}
use guyos.Llm.Search.{IsDelimiter, First}
use guyos.Llm.Events.{take_event_iff}

abbrev cfg : LlmRelayConfig
cfg = record {
  assistant_name = b'a' ∷ [];
  base_url = [];
  model = b'm' ∷ [];
  system_prompt = none;
  context = 2;
  stream = true;
  stream_chunk_min_chars = 2;
  stream_interval = 10;
}

abbrev items : List ClockedItem
items =
    record { item = ok (delta_text (b'H' ∷ b'e' ∷ [])); checked_at = 20; sent_at = 21 }
    ∷ record { item = ok (delta_text (b'l' ∷ b'l' ∷ [])); checked_at = 22; sent_at = 23 }
    ∷ record { item = ok (delta_text (b'o' ∷ [])); checked_at = 24; sent_at = 25 }
    ∷ record { item = ok done; checked_at = 26; sent_at = 27 }
    ∷ []

stream_reply-Says_example :
    Says false
      (partial (b'H' ∷ b'e' ∷ []) ∷ partial (b'l' ∷ b'l' ∷ b'o' ∷ []) ∷ [])
      (b'H' ∷ b'e' ∷ b'l' ∷ b'l' ∷ b'o' ∷ [])
unfolding stream_reply
stream_reply-Says_example =
    stream_reply-Says cfg 15 items
      (partial (b'H' ∷ b'e' ∷ []) ∷ partial (b'l' ∷ b'l' ∷ b'o' ∷ []) ∷ []) refl

abbrev from_user : Text → HistoryMessage
from_user text = record { from = b'u' ∷ []; text = text }

abbrev incoming : List HistoryMessage
incoming = from_user (1 ∷ []) ∷ from_user (2 ∷ []) ∷ from_user (3 ∷ []) ∷ []

last_two : history_after cfg [] incoming ≡ from_user (2 ∷ []) ∷ from_user (3 ∷ []) ∷ []
unfolding update_history trim_history
last_two = refl

take_event_iff_example :
    (take_event (b'd' ∷ 13 ∷ 10 ∷ 13 ∷ 10 ∷ b'e' ∷ []) ≡ some (b'd' ∷ [], b'e' ∷ [])) ↔ (
      (d : Bytes) × IsDelimiter d
      × (b'd' ∷ 13 ∷ 10 ∷ 13 ∷ 10 ∷ b'e' ∷ [] ≡ (b'd' ∷ []) ++ (d ++ (b'e' ∷ [])))
      × First (b'd' ∷ []) (d ++ (b'e' ∷ [])))
take_event_iff_example =
    take_event_iff (b'd' ∷ 13 ∷ 10 ∷ 13 ∷ 10 ∷ b'e' ∷ []) (b'd' ∷ []) (b'e' ∷ [])
