-- ===== src/Llm/History.antt =====
-- The rolling history of guyos_core/src/main.rs and the prompt made from it.
use guyos.Prelude.{
  ℕ, ◌≤◌, ◌≡◌, refl, sym, ap, ◌∙◌, List, [], ◌∷◌, ◌++◌, append-nil, append_assoc, length,
  length-append, arith, ◌⊎◌, subst, Bool-cases, inl, inr, ltb,
}
use guyos.Llm.{HistoryMessage, LlmRelayConfig, trim_history, update_history}

-- The history after these messages have come in, one by one.
abbrev pub history_after :
    LlmRelayConfig → List HistoryMessage → List HistoryMessage → List HistoryMessage
history_after cfg history [] = history
history_after cfg history (m ∷ ms) = history_after cfg (update_history cfg history m) ms

trim_short :
    (context : ℕ) (ms : List HistoryMessage) → length ms ≤ context → trim_history context ms ≡ ms
unfolding trim_history
trim_short context [] h = refl
trim_short context (m ∷ ms) h = ground arith

trim_long :
    (context : ℕ) (m : HistoryMessage) (ms : List HistoryMessage)
    → context ≤ length ms
    → trim_history context (m ∷ ms) ≡ trim_history context ms
unfolding trim_history
trim_long context m ms h = ground arith

-- The trimming keeps the last `context` messages.
trim_history_lem :
    (context : ℕ) (front back : List HistoryMessage)
    → length back ≡ context
    → trim_history context (front ++ back) ≡ back
trim_history_lem context [] back h = trim_short context back (omega arith)
trim_history_lem context (m ∷ front) back h =
    trim_long context m (front ++ back) (omega (arith, length-append {0} front back))
    ∙ trim_history_lem context front back h

-- A history that is the end of `seen` of `context` messages, or all of it when it has fewer.
abbrev pub IsLast : ℕ → List HistoryMessage → List HistoryMessage → Type 0
IsLast context seen history =
    (front : List HistoryMessage) × (seen ≡ front ++ history)
    × ((length history ≡ context) ⊎ ((front ≡ []) × (length history ≤ context)))

-- A full history drops its oldest message.
trim_full :
    (context : ℕ) (seen front history : List HistoryMessage) (m : HistoryMessage)
    → seen ≡ front ++ history
    → length history ≡ context
    → IsLast context (seen ++ m ∷ []) (trim_history context (history ++ m ∷ []))
trim_full context seen front [] m e full =
    let empty : trim_history context (m ∷ []) ≡ [] = trim_history_lem context (m ∷ []) [] full in
    (seen ++ m ∷ [], rw (empty, append-nil) refl, inl (ap length empty ∙ full))
trim_full context seen front (h ∷ t) m e full =
    let len : length (t ++ m ∷ []) ≡ context = omega (arith, length-append {0} t (m ∷ [])) in
    let kept : trim_history context ((h ∷ []) ++ (t ++ m ∷ [])) ≡ t ++ m ∷ [] =
      trim_history_lem context (h ∷ []) (t ++ m ∷ []) len in
    (
      front ++ h ∷ [],
      rw kept (
          ap (λ l. l ++ m ∷ []) e
          ∙ append_assoc front (h ∷ t) (m ∷ [])
          ∙ sym (append_assoc front (h ∷ []) (t ++ m ∷ []))),
      inl (ap length kept ∙ len),
    )

pub update-IsLast :
    (cfg : LlmRelayConfig) (seen history : List HistoryMessage) (m : HistoryMessage)
    → IsLast cfg.context seen history
    → IsLast cfg.context (seen ++ m ∷ []) (update_history cfg history m)
unfolding update_history
update-IsLast cfg seen history m (front, e, inl full) =
    trim_full cfg.context seen front history m e full
update-IsLast cfg seen history m (front, e, inr (none, few)) =
    elim (Bool-cases (ltb (length history) cfg.context)) [
      | inr b ↦ trim_full cfg.context seen front history m e (ground arith)
      | inl b ↦
          let len : length (history ++ m ∷ []) ≤ cfg.context =
            ground (arith, length-append {0} history (m ∷ [])) in
          let kept = trim_short cfg.context (history ++ m ∷ []) len in
          (
            [],
            rw kept (ap (λ l. l ++ m ∷ []) (e ∙ ap (λ f. f ++ history) none)),
            inr (refl, subst (λ l. length l ≤ cfg.context) (sym kept) len),
          )
    ]

after-IsLast :
    (cfg : LlmRelayConfig) (ms seen history : List HistoryMessage)
    → IsLast cfg.context seen history
    → IsLast cfg.context (seen ++ ms) (history_after cfg history ms)
after-IsLast cfg [] seen history h = rw append-nil h
after-IsLast cfg (m ∷ ms) seen history h =
    subst (λ l. IsLast cfg.context l (history_after cfg (update_history cfg history m) ms))
      (append_assoc seen (m ∷ []) ms)
      (after-IsLast cfg ms (seen ++ m ∷ []) (update_history cfg history m)
        (update-IsLast cfg seen history m h))

-- The history that the relay keeps from its start is the end of all messages that came in: the
-- last `context` of them, or all of them while there are fewer.
pub history-IsLast :
    (cfg : LlmRelayConfig) (ms : List HistoryMessage)
    → IsLast cfg.context ms (history_after cfg [] ms)
history-IsLast cfg ms = after-IsLast cfg ms [] [] ([], refl, inr (refl, omega arith))
