-- ===== src/Llm/Sse/Pending.antt =====
-- When a poll of the stream of events in guyos_core/src/llm.rs answers `Pending`.
use guyos.Prelude.{
  ◌≡◌, ◌↔◌, ◌⊎◌, refl, sym, ◌∙◌, ap, Option-cases, Bool-cases, inl, inr, true, false, Option, none,
  some, ◌++◌, Result, ok, err, arith,
}
use guyos.Text.{Bytes, Text}
use guyos.Session.{Poll, ready, pending}
use guyos.Llm.{take_event}
use guyos.Llm.Sse.{ChatCompletionsChunk, Item, SseStream, parse_event, read_more, poll_next}
use guyos.Llm.Sse.Draining.{try_none, try_some}

module _ (from_str : Text → Result ChatCompletionsChunk Text) {S : Type 0}
    (inner_poll_next : S → Poll (Option (Result Bytes Text)) × S) (s : SseStream S) where
  -- What one poll of the stream of bytes gives.
  abbrev pub InnerPoll : Type 0
  InnerPoll = Poll (Option (Result Bytes Text)) × S

  -- The poll of the stream of bytes has kept the waker, and nothing else has changed.
  abbrev pub HasWaker : InnerPoll → SseStream S → Type 0
  HasWaker polled s' = (inner : S) × (polled ≡ (pending, inner)) × (s' ≡ record s { inner = inner })

  -- It has given a chunk, which has gone into the buffer and completes no event.
  abbrev pub HasNoWaker : InnerPoll → SseStream S → Type 0
  HasNoWaker polled s' =
      (chunk : Bytes) × (inner : S) × (polled ≡ (ready (some (ok chunk)), inner))
      × (take_event (s.buf ++ chunk) ≡ none)
      × (s' ≡ record s { inner = inner; buf = s.buf ++ chunk })

  abbrev read : InnerPoll → Poll (Option Item) × SseStream S
  read polled = read_more from_str inner_poll_next s polled

  read_waker : (inner : S) → read (pending, inner) ≡ (pending, record s { inner = inner })
  unfolding read_more
  read_waker inner = refl

  read_no_event :
      (chunk : Bytes) (inner : S)
      → take_event (s.buf ++ chunk) ≡ none
      → read (ready (some (ok chunk)), inner)
        ≡ (pending, record s { inner = inner; buf = s.buf ++ chunk })
  unfolding read_more
  read_no_event chunk inner h = rw (read_more, try_none from_str (s.buf ++ chunk) h) refl

  read_event :
      (chunk event rest : Bytes) (inner : S)
      → take_event (s.buf ++ chunk) ≡ some (event, rest)
      → (read (ready (some (ok chunk)), inner)).0 ≡ ready (some (parse_event from_str event))
  unfolding read_more
  read_event chunk event rest inner h =
      rw (read_more, try_some from_str (s.buf ++ chunk) event rest h) refl

  read_pending :
      (polled : InnerPoll) (s' : SseStream S)
      → read polled ≡ (pending, s')
      → HasWaker polled s' ⊎ HasNoWaker polled s'
  unfolding read_more
  read_pending (pending, inner) s' h = inl (inner, refl, ap (λ r. r.1) (sym h))
  read_pending (ready none, inner) s' h = absurd (ground (arith, ap (λ r. r.0) h))
  read_pending (ready (some (err e)), inner) s' h = absurd (ground (arith, ap (λ r. r.0) h))
  read_pending (ready (some (ok chunk)), inner) s' h =
      elim (Option-cases (take_event (s.buf ++ chunk))) [
        | inl e ↦ inr (chunk, inner, refl, e, ap (λ r. r.1) (sym h ∙ read_no_event chunk inner e))
        | inr ((event, rest), e) ↦
            absurd (ground (arith, sym (read_event chunk event rest inner e) ∙ ap (λ r. r.0) h))
      ]

  pending_read :
      (polled : InnerPoll) (s' : SseStream S)
      → HasWaker polled s' ⊎ HasNoWaker polled s'
      → read polled ≡ (pending, s')
  pending_read polled s' (inl (inner, e, same)) =
      ap read e ∙ read_waker inner ∙ ap (λ t. (pending, t)) (sym same)
  pending_read polled s' (inr (chunk, inner, e, no_event, same)) =
      ap read e ∙ read_no_event chunk inner no_event ∙ ap (λ t. (pending, t)) (sym same)

  poll_end : s.done ≡ true → (poll_next from_str inner_poll_next s).0 ≡ ready none
  unfolding poll_next
  poll_end h = rw (poll_next, h) refl

  poll_buffer :
      (event rest : Bytes)
      → s.done ≡ false
      → take_event s.buf ≡ some (event, rest)
      → (poll_next from_str inner_poll_next s).0 ≡ ready (some (parse_event from_str event))
  unfolding poll_next
  poll_buffer event rest h e = rw (poll_next, h, try_some from_str s.buf event rest e) refl

  poll_read :
      s.done ≡ false
      → take_event s.buf ≡ none
      → poll_next from_str inner_poll_next s ≡ read (inner_poll_next s.inner)
  unfolding poll_next
  poll_read h e = rw (poll_next, h, try_none from_str s.buf e) refl

  -- A poll answers `Pending` and leaves a state exactly when the stream has not ended, its buffer
  -- holds no event, and either the stream of bytes answers `Pending`, or it answers with a chunk
  -- behind which the buffer still holds none. In both cases the state has the stream of bytes as
  -- that one poll left it, and so polled no further, and the buffer with the chunk if there is
  -- one.
  pub poll_next-pending_iff :
      (s' : SseStream S)
      → (poll_next from_str inner_poll_next s ≡ (pending, s')) ↔ (
          (s.done ≡ false)
          × (take_event s.buf ≡ none)
          × (HasWaker (inner_poll_next s.inner) s' ⊎ HasNoWaker (inner_poll_next s.inner) s'))
  poll_next-pending_iff s' = (
    λ h. elim (Bool-cases s.done) [
      | inl e ↦ absurd (ground (arith, sym (poll_end e) ∙ ap (λ r. r.0) h))
      | inr e ↦ elim (Option-cases (take_event s.buf)) [
        | inr ((event, rest), k) ↦
            absurd (ground (arith, sym (poll_buffer event rest e k) ∙ ap (λ r. r.0) h))
        | inl k ↦ (e, k, read_pending (inner_poll_next s.inner) s' (sym (poll_read e k) ∙ h))
      ]
    ],
    λ h. poll_read h.0 h.1 ∙ pending_read (inner_poll_next s.inner) s' h.2,
  )
