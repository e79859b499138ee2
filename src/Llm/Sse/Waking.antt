-- ===== src/Llm/Sse/Waking.antt =====
-- `stream.next().await` of guyos_core/src/llm.rs: a task whose poll was answered `Pending` is polled
-- again only when it is woken, and so only when the stream of bytes has kept its waker.
use guyos.Prelude.{
  ℕ, zero, suc, ◌+◌, ◌≤◌, ◌≡◌, ◌≢◌, refl, sym, ap, ◌∙◌, Option-cases, inl, inr, Bool, true, false,
  Option, none, some, List, [], ◌∷◌, ◌++◌, length, Result, err, subst,
}
use guyos.Text.{Bytes, Text}
use guyos.Session.{Poll, ready, pending}
use guyos.Llm.{take_event}
use guyos.Llm.Sse.{ChatCompletionsChunk, Item, SseStream, new_sse, parse_event}
use guyos.Llm.Sse.Draining.{events}
use guyos.Llm.Sse.Left.{left, left-none, left-some, left_empty}
use guyos.Llm.Sse.Polling.{
  ByteStream, unpolled, poll, at, ended, poll_times, poll_times-events, bytes_of, ending_items,
  poll_buffered, poll_delayed, poll-ended, poll_failed, poll_event, poll_done, onward, times_step,
}

-- Each chunk completes an event, behind the bytes that were left before it.
abbrev pub Timely : Bytes → List (Poll Bytes) → Type 0
Timely tail [] = Unit
Timely tail (pending ∷ more) = Timely tail more
Timely tail (ready chunk ∷ more) =
    (take_event (tail ++ chunk) ≢ none) × Timely (left (tail ++ chunk)) more

module _ (from_str : Text → Result ChatCompletionsChunk Text) where
  abbrev Stream : Type 0
  Stream = SseStream ByteStream

  -- The task is woken if there is a waker to do it, and never polled again if there is none.
  abbrev resumed : Bool → (Stream → List Item × Bool) → Stream → List Item × Bool
  resumed true later s = later s
  resumed false later s = ([], false)

  abbrev woken : (Stream → List Item × Bool) → Poll (Option Item) × Stream → List Item × Bool
  woken later (ready none, s) = ([], true)
  woken later (ready (some item), s) = (item ∷ (later s).0, (later s).1)
  woken later (pending, s) = resumed s.inner.has_waker later s

  -- The items that the task gets in at most `n` polls, and whether it has got to the end of the stream.
  unfoldable pub await_times : ℕ → Stream → List Item × Bool
  await_times zero s = ([], false)
  await_times (suc n) s = woken (await_times n) (poll from_str s)

  await_step :
      (n : ℕ) (s : Stream) {answer : Poll (Option Item) × Stream}
      → poll from_str s ≡ answer
      → await_times (suc n) s ≡ woken (await_times n) answer
  unfolding await_times
  await_step n s h = ap (woken (await_times n)) h

  times_both :
      (n : ℕ) (s : Stream) {answer : Poll (Option Item) × Stream}
      → poll from_str s ≡ answer
      → woken (await_times n) answer ≡ onward from_str (poll_times from_str n) answer
      → await_times (suc n) s ≡ poll_times from_str (suc n) s
  times_both n s h e = await_step n s h ∙ e ∙ sym (times_step from_str n s h)

  -- Without a stall the polls are those of a task that is polled again and again.
  abbrev Same : ℕ → Bool → List (Poll Bytes) → Option Text → Bytes → Type 0
  Same n waker arrivals ending buf =
      Timely (left buf) arrivals
      → await_times n (at from_str waker arrivals ending buf)
        ≡ poll_times from_str n (at from_str waker arrivals ending buf)

  same_done :
      (n : ℕ) (buf : Bytes)
      → await_times n (ended from_str buf) ≡ poll_times from_str n (ended from_str buf)
  unfolding await_times poll_times
  same_done zero buf = refl
  same_done (suc n) buf = times_both n _ (poll_done from_str buf) refl

  same_ending :
      (n : ℕ) (waker : Bool) (ending : Option Text) (buf : Bytes)
      → take_event buf ≡ none
      → await_times (suc n) (at from_str waker [] ending buf)
        ≡ poll_times from_str (suc n) (at from_str waker [] ending buf)
  same_ending n waker none buf e = times_both n _ (poll-ended from_str waker [] none buf e) refl
  same_ending n waker (some x) buf e =
      times_both n _ (poll_failed from_str waker [] none buf e x)
        (ap (λ r. (err x ∷ r.0, r.1)) (same_done n buf))

  -- What a chunk leaves is what its first event leaves.
  chunk_left :
      (buf chunk event rest : Bytes)
      → take_event buf ≡ none
      → take_event (buf ++ chunk) ≡ some (event, rest)
      → left (left buf ++ chunk) ≡ left rest
  chunk_left buf chunk event rest e k =
      ap (λ t. left (t ++ chunk)) (left-none buf e) ∙ left-some (buf ++ chunk) event rest k

  Same-read :
      (n : ℕ) (waker : Bool) (arrivals : List (Poll Bytes)) (ending : Option Text) (buf : Bytes)
      → take_event buf ≡ none
      → ((w : Bool) (more : List (Poll Bytes)) (buf' : Bytes) → Same n w more ending buf')
      → Same (suc n) waker arrivals ending buf
  Same-read n waker [] ending buf e later t = same_ending n waker ending buf e
  Same-read n waker (pending ∷ more) ending buf e later t =
      times_both n _ (poll_delayed from_str waker more ending buf e) (later true more buf t)
  Same-read n waker (ready chunk ∷ more) ending buf e later t =
      elim (Option-cases (take_event (buf ++ chunk))) [
        | inl k ↦ absurd (t.0 (ap (λ b. take_event (b ++ chunk)) (left-none buf e) ∙ k))
        | inr ((event, rest), k) ↦
            times_both n _ (poll_event from_str waker more ending buf e chunk event rest k) (
              ap (λ r. (ok_event event ∷ r.0, r.1))
                (later false more rest
                  (subst (λ b. Timely b more) (chunk_left buf chunk event rest e k) t.1)))
      ]
    where
      ok_event : Bytes → Item
      ok_event event = parse_event from_str event

  Same-await :
      (n : ℕ) (waker : Bool) (arrivals : List (Poll Bytes)) (ending : Option Text) (buf : Bytes)
      → Same n waker arrivals ending buf
  unfolding await_times poll_times
  Same-await zero waker arrivals ending buf t = refl
  Same-await (suc n) waker arrivals ending buf t = elim (Option-cases (take_event buf)) [
    | inr ((event, rest), e) ↦
        times_both n _ (poll_buffered from_str waker arrivals ending buf event rest e) (
          ap (λ r. (parse_event from_str event ∷ r.0, r.1))
            (Same-await n waker arrivals ending rest
              (subst (λ b. Timely b arrivals) (left-some buf event rest e) t)))
    | inl e ↦
        Same-read n waker arrivals ending buf e (λ w more buf'. Same-await n w more ending buf') t
  ]

  -- The end is reached only without a stall.
  abbrev Reached : ℕ → Bool → List (Poll Bytes) → Option Text → Bytes → Type 0
  Reached n waker arrivals ending buf =
      (await_times n (at from_str waker arrivals ending buf)).1 ≡ true → Timely (left buf) arrivals

  -- A task gets all events, and then the error when there is one, if each chunk completes an event.
  pub await_times-events :
      (n : ℕ) (arrivals : List (Poll Bytes)) (ending : Option Text)
      → length arrivals + length (events from_str (bytes_of arrivals)) + 2 ≤ n
      → Timely [] arrivals
      → await_times n (new_sse (unpolled arrivals ending))
        ≡ (events from_str (bytes_of arrivals) ++ ending_items ending, true)
  unfolding new_sse
  await_times-events n arrivals ending h t =
      Same-await n false arrivals ending [] (subst (λ b. Timely b arrivals) (sym left_empty) t)
      ∙ poll_times-events from_str n arrivals ending h
