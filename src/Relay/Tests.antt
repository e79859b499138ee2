-- ===== src/Relay/Tests.antt =====
-- A relay that hears three messages, one of them its own, and an input of one line.
use guyos.Prelude.{◌≡◌, refl, true, false, none, some, List, [], ◌∷◌, err, arith}
use guyos.Text.{Text, text_eq, lit}
use guyos.Text.Utf8.{ascii-is_utf8}
use guyos.Chat.{ChatMessage}
use guyos.Llm.{HistoryMessage, LlmRelayConfig, update_history, trim_history}
use guyos.Relay.{
  Args, open_room, llm_cfg, enabled_cfg, aborted, spawned, started, incoming_loop, incoming_message,
  relay_message, restart, input_loop,
}
use guyos.Relay.Restarts.{
  prints, unprinted, print_lines, restarts, RepliesTo, incoming_loop-restarts,
}
use guyos.Relay.Typing.{taken, typed, input_loop-typed}

abbrev cfg : LlmRelayConfig
cfg = record {
  assistant_name = b'a' ∷ [];
  base_url = [];
  model = b'm' ∷ [];
  system_prompt = none;
  context = 2;
  stream = true;
  stream_chunk_min_chars = 48;
  stream_interval = 350000000;
}

abbrev said_by : Text → Text → ChatMessage
said_by from text = record { id = []; from = from; text = text }

abbrev incoming : List ChatMessage
incoming =
    said_by (b'u' ∷ []) (b'1' ∷ [])
    ∷ said_by (b'a' ∷ []) (b'2' ∷ [])
    ∷ said_by (b'u' ∷ []) (b'3' ∷ [])
    ∷ []

incoming_loop-restarts_example :
    (hs : List (List HistoryMessage)) × RepliesTo cfg [] incoming hs
    × (unprinted (incoming_loop (some cfg) started incoming).1 ≡ restarts none 0 hs)
    × (prints (incoming_loop (some cfg) started incoming).1 ≡ print_lines incoming)
incoming_loop-restarts_example = incoming_loop-restarts cfg incoming

abbrev line_1 : HistoryMessage
line_1 = record { from = b'u' ∷ []; text = b'1' ∷ [] }

abbrev line_2 : HistoryMessage
line_2 = record { from = b'a' ∷ []; text = b'2' ∷ [] }

abbrev line_3 : HistoryMessage
line_3 = record { from = b'u' ∷ []; text = b'3' ∷ [] }

two_generations :
    unprinted (incoming_loop (some cfg) started incoming).1
    ≡ spawned 0 (line_1 ∷ []) ∷ aborted 0 ∷ spawned 1 (line_2 ∷ line_3 ∷ []) ∷ []
unfolding incoming_loop incoming_message relay_message restart update_history trim_history text_eq
two_generations = refl

input_loop-typed_example :
    input_loop (taken 3) (typed ((b'h' ∷ b'i' ∷ []) ∷ []))
    ≡ ((b'h' ∷ b'i' ∷ 10 ∷ []) ∷ [] ∷ [] ∷ [], none)
input_loop-typed_example = input_loop-typed ((b'h' ∷ b'i' ∷ []) ∷ []) 2 (
  (
    (omega arith, (omega arith, tt)),
    ascii-is_utf8 (b'h' ∷ b'i' ∷ []) (omega arith, (omega arith, tt)),
  ),
  tt,
)

abbrev args : Args
args = record {
  name = some (b'a' ∷ []);
  llm_enable = true;
  llm_base_url = [];
  llm_model = none;
  llm_system_prompt = none;
  llm_context = 20;
  llm_stream_chunk_min_chars = 48;
  llm_stream_interval_ms = 350;
  llm_stream = false;
  command = open_room;
}

model_required : llm_cfg args ≡ err (lit "--llm-model is required when --llm-enable is set")
unfolding llm_cfg enabled_cfg
model_required = refl
