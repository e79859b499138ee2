-- ===== src/Llm/Sse/Left.antt =====
-- What the events of a buffer leave of it, in the stream of guyos_core/src/llm.rs.
use guyos.Prelude.{
  ℕ, zero, suc, ◌≤◌, ◌≡◌, refl, sym, ◌∙◌, Option-cases, inl, inr, none, some, [], arith, length,
}
use guyos.Text.{Bytes}
use guyos.Llm.{take_event}
use guyos.Llm.Sse.Draining.{take_event-shorter}

-- What is left of a buffer behind its events, of which `n` at most are taken.
unfoldable left_within : ℕ → Bytes → Bytes
left_within zero buf = buf
left_within (suc n) buf = elim (take_event buf) [
  | none ↦ buf
  | some (event, rest) ↦ left_within n rest
]

unfoldable pub left : Bytes → Bytes
unfolding left_within
left buf = left_within (length buf) buf

within_none : (n : ℕ) (buf : Bytes) → take_event buf ≡ none → left_within n buf ≡ buf
unfolding left_within
within_none zero buf h = refl
within_none (suc n) buf h = rw (left_within, h) refl

within_some :
    (n : ℕ) (buf event rest : Bytes)
    → take_event buf ≡ some (event, rest)
    → left_within (suc n) buf ≡ left_within n rest
unfolding left_within
within_some n buf event rest h = rw (left_within, h) refl

-- As many rounds as the buffer has bytes are enough.
enough :
    (n m : ℕ) (buf : Bytes)
    → length buf ≤ n
    → length buf ≤ m
    → left_within n buf ≡ left_within m buf
unfolding left_within
enough zero m buf hn hm = elim (Option-cases (take_event buf)) [
  | inl e ↦ sym (within_none m buf e)
  | inr ((event, rest), e) ↦ absurd (omega (arith, take_event-shorter buf event rest e))
]
enough (suc n) zero buf hn hm = elim (Option-cases (take_event buf)) [
  | inl e ↦ within_none (suc n) buf e
  | inr ((event, rest), e) ↦ absurd (omega (arith, take_event-shorter buf event rest e))
]
enough (suc n) (suc m) buf hn hm = elim (Option-cases (take_event buf)) [
  | inl e ↦ within_none (suc n) buf e ∙ sym (within_none (suc m) buf e)
  | inr ((event, rest), e) ↦
      let shorter = take_event-shorter buf event rest e in
      within_some n buf event rest e
      ∙ enough n m rest (omega arith) (omega arith)
      ∙ sym (within_some m buf event rest e)
]

pub left-none : (buf : Bytes) → take_event buf ≡ none → left buf ≡ buf
unfolding left
left-none buf h = within_none (length buf) buf h

pub left-some :
    (buf event rest : Bytes) → take_event buf ≡ some (event, rest) → left buf ≡ left rest
unfolding left
left-some buf event rest h =
    let shorter = take_event-shorter buf event rest h in
    enough (length buf) (suc (length buf)) buf (omega arith) (omega arith)
    ∙ within_some (length buf) buf event rest h
    ∙ enough (length buf) (length rest) rest (omega arith) (omega arith)

pub left_empty : left [] ≡ []
unfolding left left_within
left_empty = refl
