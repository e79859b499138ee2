-- ===== src/Llm/Sse/Polling.antt =====
-- What repeated polls of the stream of events give, woken or not, however its bytes are cut and delayed.
use guyos.Prelude.{
  ℕ, zero, suc, ◌+◌, ◌≤◌, ◌≡◌, refl, sym, ap, ◌∙◌, Option-cases, inl, inr, Bool, true, false,
  Option, none, some, List, [], ◌∷◌, ◌++◌, append-nil, append_assoc, length, arith, Result, ok, err,
}
use guyos.Text.{Bytes, Text}
use guyos.Session.{Poll, ready, pending}
use guyos.Llm.{take_event}
use guyos.Llm.Events.{take_event-append}
use guyos.Llm.Sse.{
  ChatCompletionsChunk, Item, SseStream, new_sse, parse_event, read_more, poll_next,
}
use guyos.Llm.Sse.Draining.{events, events-none, events-some, try_none, try_some}

-- The body of an HTTP answer: at each poll a chunk or a delay, then the end or an error; and whether its
-- last poll has kept the waker, which a poll does that answers `Pending`.
pub record ByteStream : Type 0 where
  pub arrivals : List (Poll Bytes)
  pub ending : Option Text
  pub has_waker : Bool

-- A body that has not been polled.
abbrev pub unpolled : List (Poll Bytes) → Option Text → ByteStream
unpolled arrivals ending = record { arrivals = arrivals; ending = ending; has_waker = false }

abbrev pub ending_answer : Option Text → Option (Result Bytes Text)
ending_answer none = none
ending_answer (some e) = some (err e)

abbrev pub poll_arrivals :
    List (Poll Bytes) → Option Text → Poll (Option (Result Bytes Text)) × ByteStream
poll_arrivals [] ending =
    (ready (ending_answer ending), record { arrivals = []; ending = none; has_waker = false })
poll_arrivals (ready chunk ∷ more) ending =
    (ready (some (ok chunk)), record { arrivals = more; ending = ending; has_waker = false })
poll_arrivals (pending ∷ more) ending =
    (pending, record { arrivals = more; ending = ending; has_waker = true })

abbrev pub poll_bytes : ByteStream → Poll (Option (Result Bytes Text)) × ByteStream
poll_bytes s = poll_arrivals s.arrivals s.ending

abbrev pub bytes_of : List (Poll Bytes) → Bytes
bytes_of [] = []
bytes_of (ready chunk ∷ more) = chunk ++ bytes_of more
bytes_of (pending ∷ more) = bytes_of more

abbrev pub ending_items : Option Text → List Item
ending_items none = []
ending_items (some e) = err e ∷ []

module _ (from_str : Text → Result ChatCompletionsChunk Text) where
  abbrev Stream : Type 0
  Stream = SseStream ByteStream

  abbrev pub poll : Stream → Poll (Option Item) × Stream
  poll s = poll_next from_str poll_bytes s

  abbrev pub at : Bool → List (Poll Bytes) → Option Text → Bytes → Stream
  at waker arrivals ending buf = record {
    inner = record { arrivals = arrivals; ending = ending; has_waker = waker };
    buf = buf;
    done = false;
  }

  abbrev pub ended : Bytes → Stream
  ended buf = record {
    inner = record { arrivals = []; ending = none; has_waker = false };
    buf = buf;
    done = true;
  }

  -- What one answer adds to what the polls behind it give.
  abbrev pub onward : (Stream → List Item × Bool) → Poll (Option Item) × Stream → List Item × Bool
  onward later (ready none, s) = ([], true)
  onward later (ready (some item), s) = (item ∷ (later s).0, (later s).1)
  onward later (pending, s) = later s

  -- The items that `n` polls give, and whether the stream has said that it is at its end.
  unfoldable pub poll_times : ℕ → Stream → List Item × Bool
  poll_times zero s = ([], false)
  poll_times (suc n) s = onward (poll_times n) (poll s)

  pub times_step :
      (n : ℕ) (s : Stream) {answer : Poll (Option Item) × Stream}
      → poll s ≡ answer
      → poll_times (suc n) s ≡ onward (poll_times n) answer
  unfolding poll_times
  times_step n s h = ap (onward (poll_times n)) h

  module _ (waker : Bool) (arrivals : List (Poll Bytes)) (ending : Option Text) (buf : Bytes) where
    pub poll_buffered :
        (event rest : Bytes)
        → take_event buf ≡ some (event, rest)
        → poll (at waker arrivals ending buf)
          ≡ (ready (some (parse_event from_str event)), at waker arrivals ending rest)
    unfolding poll_next
    poll_buffered event rest h = rw (poll_next, try_some from_str buf event rest h) refl

    module _ (h : take_event buf ≡ none) where
      pub poll_delayed :
          poll (at waker (pending ∷ arrivals) ending buf) ≡ (pending, at true arrivals ending buf)
      unfolding poll_next read_more
      poll_delayed = rw (poll_next, try_none from_str buf h) refl

      pub poll-ended : poll (at waker [] none buf) ≡ (ready none, ended buf)
      unfolding poll_next read_more
      poll-ended = rw (poll_next, try_none from_str buf h) refl

      pub poll_failed :
          (e : Text) → poll (at waker [] (some e) buf) ≡ (ready (some (err e)), ended buf)
      unfolding poll_next read_more
      poll_failed e = rw (poll_next, try_none from_str buf h) refl

      pub poll_event :
          (chunk event rest : Bytes)
          → take_event (buf ++ chunk) ≡ some (event, rest)
          → poll (at waker (ready chunk ∷ arrivals) ending buf)
            ≡ (ready (some (parse_event from_str event)), at false arrivals ending rest)
      unfolding poll_next read_more
      poll_event chunk event rest k =
          rw
            (
              poll_next,
              try_none from_str buf h,
              read_more,
              try_some from_str (buf ++ chunk) event rest k,
            )
            refl

      pub poll_stalled :
          (chunk : Bytes)
          → take_event (buf ++ chunk) ≡ none
          → poll (at waker (ready chunk ∷ arrivals) ending buf)
            ≡ (pending, at false arrivals ending (buf ++ chunk))
      unfolding poll_next read_more
      poll_stalled chunk k =
          rw (poll_next, try_none from_str buf h, read_more, try_none from_str (buf ++ chunk) k)
            refl

  pub poll_done : (buf : Bytes) → poll (ended buf) ≡ (ready none, ended buf)
  unfolding poll_next
  poll_done buf = refl

  -- The end of the stream, an error first when there is one.
  times_ending :
      (n : ℕ) (waker : Bool) (ending : Option Text) (buf : Bytes)
      → 2 ≤ n
      → take_event buf ≡ none
      → poll_times n (at waker [] ending buf) ≡ (ending_items ending, true)
  times_ending (suc n) waker none buf h e = times_step n _ (poll-ended waker [] none buf e)
  times_ending (suc (suc n)) waker (some e) buf h k =
      times_step (suc n) _ (poll_failed waker [] none buf k e)
      ∙ ap (λ r. (err e ∷ r.0, r.1)) (times_step n _ (poll_done buf))
  times_ending (suc zero) waker (some e) buf h k = absurd (omega arith)
  times_ending zero waker ending buf h e = absurd (omega arith)

  -- One poll has given an event, and those behind it give the rest.
  times_item :
      (n : ℕ) (s s' : Stream) (item : Item) (items : List Item)
      → poll s ≡ (ready (some item), s')
      → poll_times n s' ≡ (items, true)
      → poll_times (suc n) s ≡ (item ∷ items, true)
  times_item n s s' item items h k = times_step n s h ∙ ap (λ r. (item ∷ r.0, r.1)) k

  -- The events of the buffer and of all that is still to come.
  abbrev to_come : List (Poll Bytes) → Bytes → List Item
  to_come arrivals buf = events from_str (buf ++ bytes_of arrivals)

  to_come-some :
      (arrivals : List (Poll Bytes)) (buf event rest : Bytes)
      → take_event buf ≡ some (event, rest)
      → to_come arrivals buf ≡ parse_event from_str event ∷ to_come arrivals rest
  to_come-some arrivals buf event rest h =
      events-some from_str (buf ++ bytes_of arrivals) event (rest ++ bytes_of arrivals)
        (take_event-append buf event rest (bytes_of arrivals) h)

  to_come_chunk :
      (chunk : Bytes) (arrivals : List (Poll Bytes)) (buf : Bytes)
      → to_come (ready chunk ∷ arrivals) buf ≡ to_come arrivals (buf ++ chunk)
  to_come_chunk chunk arrivals buf =
      ap (events from_str) (sym (append_assoc buf chunk (bytes_of arrivals)))

  -- `n` polls are enough for these arrivals and this buffer.
  abbrev Enough : ℕ → Bool → List (Poll Bytes) → Option Text → Bytes → Type 0
  Enough n waker arrivals ending buf =
      length arrivals + length (to_come arrivals buf) + 2 ≤ n
      → poll_times n (at waker arrivals ending buf)
        ≡ (to_come arrivals buf ++ ending_items ending, true)

  -- One poll when the buffer holds no event.
  Enough-read :
      (n : ℕ) (waker : Bool) (arrivals : List (Poll Bytes)) (ending : Option Text) (buf : Bytes)
      → take_event buf ≡ none
      → ((w : Bool) (more : List (Poll Bytes)) (buf' : Bytes) → Enough n w more ending buf')
      → Enough (suc n) waker arrivals ending buf
  Enough-read n waker [] ending buf e later h =
      times_ending (suc n) waker ending buf (omega arith) e
      ∙ ap (λ l. (l ++ ending_items ending, true))
          (sym (ap (events from_str) (append-nil buf) ∙ events-none from_str buf e))
  Enough-read n waker (pending ∷ more) ending buf e later h =
      times_step n _ (poll_delayed waker more ending buf e) ∙ later true more buf (omega arith)
  Enough-read n waker (ready chunk ∷ more) ending buf e later h =
      let rest_eq = to_come_chunk chunk more buf in
      elim (Option-cases (take_event (buf ++ chunk))) [
        | inl k ↦
            times_step n _ (poll_stalled waker more ending buf e chunk k)
            ∙ later false more (buf ++ chunk) (omega (arith, ap length rest_eq))
            ∙ ap (λ l. (l ++ ending_items ending, true)) (sym rest_eq)
        | inr ((event, rest), k) ↦
            let split = rest_eq ∙ to_come-some more (buf ++ chunk) event rest k in
            times_item n _ _ _ _ (poll_event waker more ending buf e chunk event rest k)
              (later false more rest (omega (arith, ap length split)))
            ∙ ap (λ l. (l ++ ending_items ending, true)) (sym split)
      ]

  Enough-polls :
      (n : ℕ) (waker : Bool) (arrivals : List (Poll Bytes)) (ending : Option Text) (buf : Bytes)
      → Enough n waker arrivals ending buf
  Enough-polls zero waker arrivals ending buf h = absurd (omega arith)
  Enough-polls (suc n) waker arrivals ending buf h = elim (Option-cases (take_event buf)) [
    | inr ((event, rest), e) ↦
        let split = to_come-some arrivals buf event rest e in
        times_item n _ _ _ _ (poll_buffered waker arrivals ending buf event rest e)
          (Enough-polls n waker arrivals ending rest (omega (arith, ap length split)))
        ∙ ap (λ l. (l ++ ending_items ending, true)) (sym split)
    | inl e ↦
        Enough-read n waker arrivals ending buf e (λ w more buf'. Enough-polls n w more ending buf')
          h
  ]

  -- However the bytes of an answer are cut into chunks and delayed, and whether it ends well or
  -- with an error, one poll for each arrival and each event and two more are enough to reach the
  -- end of the stream: the polls give the events of all the bytes, in order and each once, and
  -- then the error when there is one.
  pub poll_times-events :
      (n : ℕ) (arrivals : List (Poll Bytes)) (ending : Option Text)
      → length arrivals + length (events from_str (bytes_of arrivals)) + 2 ≤ n
      → poll_times n (new_sse (unpolled arrivals ending))
        ≡ (events from_str (bytes_of arrivals) ++ ending_items ending, true)
  unfolding new_sse
  poll_times-events n arrivals ending h = Enough-polls n false arrivals ending [] h
