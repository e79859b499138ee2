-- ===== src/Relay/Restarts.antt =====
-- Which replies the relay starts and aborts over all messages.
use guyos.Prelude.{
  ℕ, ◌+◌, ◌≡◌, refl, sym, ap, ◌∙◌, subst, inl, inr, Bool, true, false, Bool-cases, Option, none,
  some, List, [], ◌∷◌, ◌++◌, if◌then◌else◌, arith,
}
use guyos.Text.{Text, text_eq}
use guyos.Chat.{ChatMessage}
use guyos.Llm.{HistoryMessage, LlmRelayConfig, update_history}
use guyos.Llm.History.{IsLast, update-IsLast}
use guyos.Relay.{
  Effect, printed, aborted, spawned, Incoming, started, print_line, to_history, abort_current,
  restart, relay_message, incoming_message, incoming_loop,
}

-- The lines that are printed, and the other effects.
abbrev pub prints : List Effect → List Text
prints [] = []
prints (printed line ∷ es) = line ∷ prints es
prints (aborted gen ∷ es) = prints es
prints (spawned gen history ∷ es) = prints es

abbrev pub unprinted : List Effect → List Effect
unprinted [] = []
unprinted (printed line ∷ es) = unprinted es
unprinted (aborted gen ∷ es) = aborted gen ∷ unprinted es
unprinted (spawned gen history ∷ es) = spawned gen history ∷ unprinted es

abbrev pub print_lines : List ChatMessage → List Text
print_lines [] = []
print_lines (msg ∷ msgs) = (msg.from ++ (b':' ∷ b' ' ∷ msg.text)) ∷ print_lines msgs

-- One generation after the other, from number `gen` on: the one before is aborted first.
abbrev pub restarts : Option ℕ → ℕ → List (List HistoryMessage) → List Effect
restarts current gen [] = []
restarts none gen (h ∷ hs) = spawned gen h ∷ restarts (some gen) (gen + 1) hs
restarts (some g) gen (h ∷ hs) = aborted g ∷ spawned gen h ∷ restarts (some gen) (gen + 1) hs

-- A message as the history is to have it.
abbrev pub said_line : ChatMessage → HistoryMessage
said_line msg = record { from = msg.from; text = msg.text }

-- What one message adds: nothing when it is the relay's own, else its history in front of the others.
abbrev pub RepliesStep :
    Bool
    → ℕ
    → List HistoryMessage
    → (List (List HistoryMessage) → Type 0)
    → List (List HistoryMessage)
    → Type 0
RepliesStep true context seen Later hs = Later hs
RepliesStep false context seen Later hs =
    (h : List HistoryMessage) × (more : List (List HistoryMessage)) × (hs ≡ h ∷ more)
    × IsLast context seen h
    × Later more

-- The histories are those to which the relay is to reply: one for each message of another, the last
-- `context` messages up to it.
abbrev pub RepliesTo :
    LlmRelayConfig → List HistoryMessage → List ChatMessage → List (List HistoryMessage) → Type 0
RepliesTo cfg seen [] hs = hs ≡ []
RepliesTo cfg seen (msg ∷ msgs) hs =
    RepliesStep (text_eq msg.from cfg.assistant_name) cfg.context (seen ++ said_line msg ∷ [])
      (RepliesTo cfg (seen ++ said_line msg ∷ []) msgs) hs

unprinted-append : (es fs : List Effect) → unprinted (es ++ fs) ≡ unprinted es ++ unprinted fs
unprinted-append [] fs = refl
unprinted-append (printed line ∷ es) fs = unprinted-append es fs
unprinted-append (aborted gen ∷ es) fs = ap (λ l. aborted gen ∷ l) (unprinted-append es fs)
unprinted-append (spawned gen h ∷ es) fs = ap (λ l. spawned gen h ∷ l) (unprinted-append es fs)

prints-append : (es fs : List Effect) → prints (es ++ fs) ≡ prints es ++ prints fs
prints-append [] fs = refl
prints-append (printed line ∷ es) fs = ap (λ l. line ∷ l) (prints-append es fs)
prints-append (aborted gen ∷ es) fs = prints-append es fs
prints-append (spawned gen h ∷ es) fs = prints-append es fs

module _ (cfg : LlmRelayConfig) (s : Incoming) (msg : ChatMessage) where
  abbrev heard : Incoming
  heard = record s { history = update_history cfg s.history (to_history msg) }

  abbrev relayed : Bool → Incoming × List Effect
  relayed own = if own then (heard, []) else restart heard

  message_own : text_eq msg.from cfg.assistant_name ≡ true → relay_message cfg s msg ≡ (heard, [])
  unfolding relay_message
  message_own h = ap relayed h

  abbrev replying : Incoming
  replying = record heard { current_gen = some s.generations; generations = s.generations + 1 }

  message_other :
      text_eq msg.from cfg.assistant_name ≡ false
      → relay_message cfg s msg
        ≡ (replying, abort_current s.current_gen ++ spawned s.generations heard.history ∷ [])
  unfolding relay_message restart
  message_other h = ap relayed h

  loop_step :
      (msgs : List ChatMessage) (s' : Incoming) (effects : List Effect)
      → relay_message cfg s msg ≡ (s', effects)
      → (incoming_loop (some cfg) s (msg ∷ msgs)).1
        ≡ printed (print_line msg) ∷ (effects ++ (incoming_loop (some cfg) s' msgs).1)
  unfolding incoming_loop incoming_message
  loop_step msgs s' effects h =
      ap (λ r. printed (print_line msg) ∷ (r.1 ++ (incoming_loop (some cfg) r.0 msgs).1)) h

abort-restarts :
    (current : Option ℕ) (gen : ℕ) (h : List HistoryMessage) (es : List Effect)
    (hs : List (List HistoryMessage))
    → unprinted es ≡ restarts (some gen) (gen + 1) hs
    → unprinted ((abort_current current ++ spawned gen h ∷ []) ++ es)
      ≡ restarts current gen (h ∷ hs)
abort-restarts none gen h es hs e = ap (λ l. spawned gen h ∷ l) e
abort-restarts (some g) gen h es hs e = ap (λ l. aborted g ∷ spawned gen h ∷ l) e

abort-prints :
    (current : Option ℕ) (gen : ℕ) (h : List HistoryMessage) (es : List Effect)
    → prints ((abort_current current ++ spawned gen h ∷ []) ++ es) ≡ prints es
abort-prints none gen h es = refl
abort-prints (some g) gen h es = refl

module _ (cfg : LlmRelayConfig) where
  replies_step :
      (seen : List HistoryMessage) (msg : ChatMessage) (msgs : List ChatMessage)
      (hs : List (List HistoryMessage)) (own : Bool)
      → text_eq msg.from cfg.assistant_name ≡ own
      → RepliesStep own cfg.context
          (seen ++ to_history msg ∷ [])
          (RepliesTo cfg (seen ++ to_history msg ∷ []) msgs)
          hs
      → RepliesTo cfg seen (msg ∷ msgs) hs
  replies_step seen msg msgs hs own e h =
      subst
        (λ b.
          RepliesStep b cfg.context (seen ++ to_history msg ∷ [])
            (RepliesTo cfg (seen ++ to_history msg ∷ []) msgs) hs)
        (sym e) h

  loop_restarts :
      (msgs : List ChatMessage) (s : Incoming) (seen : List HistoryMessage)
      → IsLast cfg.context seen s.history
      → (hs : List (List HistoryMessage)) × RepliesTo cfg seen msgs hs
        × (unprinted (incoming_loop (some cfg) s msgs).1 ≡ restarts s.current_gen s.generations hs)
        × (prints (incoming_loop (some cfg) s msgs).1 ≡ print_lines msgs)
  unfolding incoming_loop
  loop_restarts [] s seen last = ([], refl, refl, refl)
  loop_restarts (msg ∷ msgs) s seen last =
      let now_last = update-IsLast cfg seen s.history (to_history msg) last in
      elim (Bool-cases (text_eq msg.from cfg.assistant_name)) [
        | inl own ↦
            let (hs, replies, effects, lines) =
              loop_restarts msgs (heard cfg s msg) (seen ++ to_history msg ∷ []) now_last in
            let step = loop_step cfg s msg msgs _ _ (message_own cfg s msg own) in
            (
              hs,
              replies_step seen msg msgs hs true own replies,
              ap unprinted step ∙ effects,
              ap prints step ∙ ap (λ l. print_line msg ∷ l) lines,
            )
        | inr other ↦
            let (hs, replies, effects, lines) =
              loop_restarts msgs (replying cfg s msg) (seen ++ to_history msg ∷ []) now_last in
            let step = loop_step cfg s msg msgs _ _ (message_other cfg s msg other) in
            (
              (heard cfg s msg).history ∷ hs,
              replies_step seen msg msgs ((heard cfg s msg).history ∷ hs) false other
                  ((heard cfg s msg).history, hs, refl, now_last, replies),
              ap unprinted step
                  ∙ abort-restarts s.current_gen s.generations (heard cfg s msg).history _ hs
                      effects,
              ap prints step
                  ∙ ap (λ l. print_line msg ∷ l)
                      (abort-prints s.current_gen s.generations (heard cfg s msg).history _
                        ∙ lines),
            )
      ]

  -- The relay prints each message that comes in, once and in order. It starts a reply for each
  -- message that is not under its own name and for no other, on the last `context` messages up to
  -- that one, or all of them while there are fewer; and before it starts a reply it aborts the
  -- one before, so that at no time more than the last is left to run.
  pub incoming_loop-restarts :
      (msgs : List ChatMessage)
      → (hs : List (List HistoryMessage)) × RepliesTo cfg [] msgs hs
        × (unprinted (incoming_loop (some cfg) started msgs).1 ≡ restarts none 0 hs)
        × (prints (incoming_loop (some cfg) started msgs).1 ≡ print_lines msgs)
  incoming_loop-restarts msgs = loop_restarts msgs started [] ([], refl, inr (refl, omega arith))
