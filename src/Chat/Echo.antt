-- ===== src/Chat/Echo.antt =====
-- Texts sent through the service over the fake backend come back in order.
use guyos.Prelude.{
  ◌+◌, ◌≤◌, ◌<◌, ◌≡◌, sym, ap, ◌∙◌, some, List, [], ◌∷◌, ◌++◌, append-nil, append_assoc, ok, arith,
  length, length-append,
}
use guyos.Text.{Text}
use guyos.Session.{ready}
use guyos.Chat.{ChatMessage, ClientChatService, send_text, next_message}
use guyos.Chat.Fake.{fake_backend, echo, send_user_message_inner}

abbrev pub Service : Type 0
Service = ClientChatService fake_backend

-- The service after these texts have been sent.
abbrev pub after_sends : Service → List Text → Service
after_sends s [] = s
after_sends s (t ∷ ts) = after_sends (send_text fake_backend s t).1 ts

-- Every send of these texts is answered with success.
abbrev pub AllSent : Service → List Text → Type 0
AllSent s [] = Unit
AllSent s (t ∷ ts) =
    ((send_text fake_backend s t).0 ≡ ready (ok tt)) × AllSent (send_text fake_backend s t).1 ts

-- The next messages are the echoes of these texts.
abbrev pub Receives : Service → List Text → Type 0
Receives s [] = Unit
Receives s (t ∷ ts) =
    ((next_message fake_backend s).0 ≡ ready (some (echo t)))
    × Receives (next_message fake_backend s).1 ts

abbrev echoes : List Text → List ChatMessage
echoes [] = []
echoes (t ∷ ts) = echo t ∷ echoes ts

send_queued :
    (s : Service) (t : Text)
    → length s.messages.queue < s.messages.capacity
    → ((send_text fake_backend s t).0 ≡ ready (ok tt))
      × ((send_text fake_backend s t).1.messages.queue ≡ s.messages.queue ++ echo t ∷ [])
      × ((send_text fake_backend s t).1.messages.capacity ≡ s.messages.capacity)
unfolding send_text send_user_message_inner
send_queued s t h = ground arith

sends_queued :
    (ts : List Text) (s : Service)
    → length s.messages.queue + length ts ≤ s.messages.capacity
    → AllSent s ts × ((after_sends s ts).messages.queue ≡ s.messages.queue ++ echoes ts)
sends_queued [] s h = (tt, sym (append-nil _))
sends_queued (t ∷ ts) s h =
    let (done, queue, capacity) = send_queued s t (omega arith) in
    let (all, left) = sends_queued ts (send_text fake_backend s t).1 (
      omega (arith, ap length queue, length-append {0} s.messages.queue (echo t ∷ []), capacity)) in
    (
      (done, all),
      left
          ∙ ap (λ q. q ++ echoes ts) queue
          ∙ append_assoc s.messages.queue (echo t ∷ []) (echoes ts),
    )

next_of :
    (s : Service) (m : ChatMessage) (ms : List ChatMessage)
    → s.messages.queue ≡ m ∷ ms
    → ((next_message fake_backend s).0 ≡ ready (some m))
      × ((next_message fake_backend s).1.messages.queue ≡ ms)
unfolding next_message
next_of s m ms e = ground arith

Receives-queued : (ts : List Text) (s : Service) → s.messages.queue ≡ echoes ts → Receives s ts
Receives-queued [] s e = tt
Receives-queued (t ∷ ts) s e =
    let (got, left) = next_of s (echo t) (echoes ts) e in
    (got, Receives-queued ts (next_message fake_backend s).1 left)

-- Over the fake backend, texts that the empty channel has room for are all sent with success, and
-- are then received, each once and in order.
pub sent_and_received :
    (s : Service) (ts : List Text)
    → s.messages.queue ≡ []
    → length ts ≤ s.messages.capacity
    → AllSent s ts × Receives (after_sends s ts) ts
sent_and_received s ts e room =
    let (all, queue) = sends_queued ts s (omega (arith, ap length e)) in
    (all, Receives-queued ts (after_sends s ts) (queue ∙ ap (λ q. q ++ echoes ts) e))
