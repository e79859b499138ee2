-- ===== src/Relay.antt =====
-- guyos_core/src/main.rs: the arguments, the configuration of the relay made from them, the loop over the
-- incoming messages with its generations of replies, and the thread that reads the typed lines.
pub mod Restarts
pub mod Typing
pub mod Terminal
mod Tests
use guyos.Prelude.{
  ℕ, ◌+◌, ◌*◌, Bool, true, false, Option, none, some, List, [], ◌∷◌, ◌++◌, Result, ok, err, ◌>>=◌,
  ok_or, ◌==◌, if◌then◌else◌,
}
use guyos.Text.{Bytes, Text, lit, text_eq}
use guyos.Text.Utf8.{from_utf8}
use guyos.Chat.{ChatMessage}
use guyos.Llm.{HistoryMessage, LlmRelayConfig, update_history}

pub data Command : Type 0 where
  open_room : Command
  join : Text → Command

pub record Args : Type 0 where
  pub name : Option Text
  pub llm_enable : Bool
  pub llm_base_url : Text
  pub llm_model : Option Text
  pub llm_system_prompt : Option Text
  pub llm_context : ℕ
  pub llm_stream_chunk_min_chars : ℕ
  pub llm_stream_interval_ms : ℕ
  pub llm_stream : Bool
  pub command : Command

-- `Duration::from_millis`, in nanoseconds.
abbrev pub from_millis : ℕ → ℕ
from_millis ms = ms * 1000000

unfoldable pub enabled_cfg : Args → Result LlmRelayConfig Text
enabled_cfg args = do
  assistant_name ← ok_or (lit "--name is required when --llm-enable is set") args.name
  model ← ok_or (lit "--llm-model is required when --llm-enable is set") args.llm_model
  ok (record {
    assistant_name = assistant_name;
    base_url = args.llm_base_url;
    model = model;
    system_prompt = args.llm_system_prompt;
    context = args.llm_context;
    stream = args.llm_stream;
    stream_chunk_min_chars = args.llm_stream_chunk_min_chars;
    stream_interval = from_millis args.llm_stream_interval_ms;
  })

abbrev some_cfg : Result LlmRelayConfig Text → Result (Option LlmRelayConfig) Text
some_cfg (ok cfg) = ok (some cfg)
some_cfg (err e) = err e

-- `llm_cfg`
unfoldable pub llm_cfg : Args → Result (Option LlmRelayConfig) Text
unfolding enabled_cfg
llm_cfg args = if args.llm_enable then some_cfg (enabled_cfg args) else ok none

-- What the loop does besides its own state. A generation is a spawned task; it is named by its number.
pub data Effect : Type 0 where
  printed : Text → Effect
  aborted : ℕ → Effect
  spawned : ℕ → List HistoryMessage → Effect

-- `history` and `current_gen`, and how many generations there have been.
pub record Incoming : Type 0 where
  pub history : List HistoryMessage
  pub current_gen : Option ℕ
  pub generations : ℕ

abbrev pub started : Incoming
started = record { history = []; current_gen = none; generations = 0 }

-- `println!("{}: {}", msg.from, msg.text)`
abbrev pub print_line : ChatMessage → Text
print_line msg = msg.from ++ (b':' ∷ b' ' ∷ msg.text)

abbrev pub to_history : ChatMessage → HistoryMessage
to_history msg = record { from = msg.from; text = msg.text }

-- `if let Some(handle) = current_gen.take() { handle.abort(); }`
abbrev pub abort_current : Option ℕ → List Effect
abort_current none = []
abort_current (some gen) = aborted gen ∷ []

-- From `Restart generation` on.
unfoldable pub restart : Incoming → Incoming × List Effect
restart s = (
  record s { current_gen = some s.generations; generations = s.generations + 1 },
  abort_current s.current_gen ++ spawned s.generations s.history ∷ [],
)

-- What the relay does with one message.
unfoldable pub relay_message : LlmRelayConfig → Incoming → ChatMessage → Incoming × List Effect
unfolding restart
relay_message cfg s msg =
    let s' : Incoming = record s { history = update_history cfg s.history (to_history msg) } in
    if text_eq msg.from cfg.assistant_name then (s', []) else restart s'

unfoldable pub incoming_message :
    Option LlmRelayConfig → Incoming → ChatMessage → Incoming × List Effect
incoming_message none s msg = (s, printed (print_line msg) ∷ [])
incoming_message (some cfg) s msg =
    let (s', effects) = relay_message cfg s msg in (s', printed (print_line msg) ∷ effects)

-- The loop over the messages that `next_message` gives before it gives `None`.
unfoldable pub incoming_loop :
    Option LlmRelayConfig → Incoming → List ChatMessage → Incoming × List Effect
unfolding incoming_message
incoming_loop llm s [] = (s, [])
incoming_loop llm s (msg ∷ msgs) =
    let (s', effects) = incoming_message llm s msg in
    let (left, later) = incoming_loop llm s' msgs in (left, effects ++ later)

-- `Stdin::read_line`: the bytes up to a line feed and with it, or all that is left; and what stands behind.
unfoldable pub next_line : Bytes → Bytes × Bytes
next_line [] = ([], [])
next_line (b ∷ s) =
    let (line, rest) = next_line s in if b == 10 then (b ∷ [], s) else (b ∷ line, rest)

-- One round of the loop, over what the later rounds give: the buffer that was read, then its sending.
abbrev pub input_round :
    Result (Unit {0}) Text → List Text × Option Text → Option Text → List Text × Option Text
input_round answer later none = ([], some (lit "stream did not contain valid UTF-8"))
input_round (err e) later (some buffer) = (buffer ∷ [], some e)
input_round (ok u) later (some buffer) = (buffer ∷ later.0, later.1)

-- The answers are those of `blocking_send`. The result is the texts that the loop sends, and the error with
-- which it ends, as the text that it prints; `none` is a loop that goes on.
unfoldable pub input_loop : List (Result (Unit {0}) Text) → Bytes → List Text × Option Text
input_loop [] stdin = ([], none)
input_loop (answer ∷ answers) stdin =
    let (line, rest) = next_line stdin in
    input_round answer (input_loop answers rest) (from_utf8 line)
