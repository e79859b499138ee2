-- ===== src/Llm/Sse/Draining.antt =====
-- The events of a buffer, one after the other, as `parse_all_events` takes them.
use guyos.Prelude.{
  ℕ, zero, suc, ◌+◌, ◌≤◌, ◌≡◌, refl, sym, ap, ◌∙◌, Option-cases, inl, inr, none, some, List, [],
  ◌∷◌, ◌++◌, length, length-append, arith, Result,
}
use guyos.Text.{Bytes, Text}
use guyos.Llm.{take_event}
use guyos.Llm.Search.{IsDelimiter}
use guyos.Llm.Events.{take_event_iff}
use guyos.Llm.Sse.{ChatCompletionsChunk, Item, parse_event, try_parse_one_sse_event}

delimiter-long : (d : Bytes) → IsDelimiter d → 2 ≤ length d
delimiter-long d (inl e) = rw e (omega arith)
delimiter-long d (inr e) = rw e (omega arith)

-- An event takes its delimiter with it.
pub take_event-shorter :
    (buf event rest : Bytes) → take_event buf ≡ some (event, rest) → length rest + 2 ≤ length buf
take_event-shorter buf event rest h =
    let (d, delim, e, first) = (take_event_iff buf event rest).0 h in
    omega (
      arith,
      ap length e,
      length-append {0} event (d ++ rest),
      length-append {0} d rest,
      delimiter-long d delim,
    )

module _ (from_str : Text → Result ChatCompletionsChunk Text) where
  -- At most `n` events of the buffer.
  unfoldable events_within : ℕ → Bytes → List Item
  events_within zero buf = []
  events_within (suc n) buf = elim (take_event buf) [
    | none ↦ []
    | some (event, rest) ↦ parse_event from_str event ∷ events_within n rest
  ]

  unfoldable pub events : Bytes → List Item
  unfolding events_within
  events buf = events_within (length buf) buf

  within_none : (n : ℕ) (buf : Bytes) → take_event buf ≡ none → events_within n buf ≡ []
  unfolding events_within
  within_none zero buf h = refl
  within_none (suc n) buf h = rw (events_within, h) refl

  within_some :
      (n : ℕ) (buf event rest : Bytes)
      → take_event buf ≡ some (event, rest)
      → events_within (suc n) buf ≡ parse_event from_str event ∷ events_within n rest
  unfolding events_within
  within_some n buf event rest h = rw (events_within, h) refl

  -- As many rounds as the buffer has bytes are enough.
  enough :
      (n m : ℕ) (buf : Bytes)
      → length buf ≤ n
      → length buf ≤ m
      → events_within n buf ≡ events_within m buf
  enough zero zero buf hn hm = refl
  enough n m [] hn hm = within_none n [] none_left ∙ sym (within_none m [] none_left)
    where
      none_left : take_event [] ≡ none
      none_left = elim (Option-cases (take_event [])) [
        | inl e ↦ e
        | inr ((event, rest), e) ↦ absurd (omega (arith, take_event-shorter [] event rest e))
      ]
  enough (suc n) zero (b ∷ buf) hn hm = absurd (omega arith)
  enough zero (suc m) (b ∷ buf) hn hm = absurd (omega arith)
  enough (suc n) (suc m) (b ∷ buf) hn hm = elim (Option-cases (take_event (b ∷ buf))) [
    | inl e ↦ within_none (suc n) (b ∷ buf) e ∙ sym (within_none (suc m) (b ∷ buf) e)
    | inr ((event, rest), e) ↦
        let shorter = take_event-shorter (b ∷ buf) event rest e in
        within_some n (b ∷ buf) event rest e
        ∙ ap (λ l. parse_event from_str event ∷ l) (enough n m rest (omega arith) (omega arith))
        ∙ sym (within_some m (b ∷ buf) event rest e)
  ]

  pub events-none : (buf : Bytes) → take_event buf ≡ none → events buf ≡ []
  unfolding events
  events-none buf h = within_none (length buf) buf h

  pub events-some :
      (buf event rest : Bytes)
      → take_event buf ≡ some (event, rest)
      → events buf ≡ parse_event from_str event ∷ events rest
  unfolding events
  events-some buf event rest h =
      let shorter = take_event-shorter buf event rest h in
      enough (length buf) (suc (length buf)) buf (omega arith) (omega arith)
      ∙ within_some (length buf) buf event rest h
      ∙ ap (λ l. parse_event from_str event ∷ l)
          (enough (length buf) (length rest) rest (omega arith) (omega arith))

  pub try_none :
      (buf : Bytes) → take_event buf ≡ none → try_parse_one_sse_event from_str buf ≡ (none, buf)
  unfolding try_parse_one_sse_event
  try_none buf h = rw (try_parse_one_sse_event, h) refl

  pub try_some :
      (buf event rest : Bytes)
      → take_event buf ≡ some (event, rest)
      → try_parse_one_sse_event from_str buf ≡ (some (parse_event from_str event), rest)
  unfolding try_parse_one_sse_event
  try_some buf event rest h = rw (try_parse_one_sse_event, h) refl
