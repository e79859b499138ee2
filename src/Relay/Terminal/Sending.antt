-- ===== src/Relay/Terminal/Sending.antt =====
-- From the typed lines to the messages that come back.
use guyos.Prelude.{ℕ, ◌+◌, ◌≤◌, ◌≡◌, refl, ap, ◌∙◌, List, [], ◌∷◌, ◌++◌, ok, length, All}
use guyos.Text.{Text, lit}
use guyos.Session.{ready}
use guyos.Chat.{send_text}
use guyos.Chat.Fake.{fake_backend}
use guyos.Chat.Echo.{Service, AllSent, Receives, after_sends, sent_and_received}
use guyos.Relay.{input_loop}
use guyos.Relay.Typing.{taken, typed, IsLine, with_line_feeds, empty_texts, input_loop-typed}
use guyos.Relay.Terminal.{forward_round, forward_lines}

abbrev pub sent_lines : List Text → List Text
sent_lines [] = []
sent_lines (t ∷ ts) = (lit "> sent: " ++ t) ∷ sent_lines ts

-- When every send succeeds, all texts are sent and printed.
forward_all :
    (ts : List Text) (s : Service)
    → AllSent s ts
    → forward_lines fake_backend s ts ≡ (ready (ok tt), after_sends s ts, sent_lines ts)
unfolding forward_lines
forward_all [] s h = refl
forward_all (t ∷ ts) s h =
    ap
      (λ r.
        forward_round fake_backend t r (send_text fake_backend s t).1
          (forward_lines fake_backend (send_text fake_backend s t).1 ts))
      h.0
    ∙ ap (λ o. (o.0, o.1, (lit "> sent: " ++ t) ∷ o.2))
        (forward_all ts (send_text fake_backend s t).1 h.1)

-- Over the fake backend, with a channel that is empty and has room, lines of the standard input
-- that the reading thread has sent are all sent on and printed as sent, and come back as
-- messages, each with its line feed, in order and once; and behind them come as many empty
-- messages as the thread has made after the end of its input.
pub forward_lines-typed :
    (s : Service) (lines : List Text) (k : ℕ)
    → All IsLine lines
    → s.messages.queue ≡ []
    → length (with_line_feeds lines ++ empty_texts k) ≤ s.messages.capacity
    → let texts = with_line_feeds lines ++ empty_texts k in
      (forward_lines fake_backend s (input_loop (taken (length lines + k)) (typed lines)).0
        ≡ (ready (ok tt), after_sends s texts, sent_lines texts))
      × Receives (after_sends s texts) texts
forward_lines-typed s lines k h empty room =
    let (all, receives) = sent_and_received s (with_line_feeds lines ++ empty_texts k) empty room in
    (
      ap (λ r. forward_lines fake_backend s r.0) (input_loop-typed lines k h)
          ∙ forward_all (with_line_feeds lines ++ empty_texts k) s all,
      receives,
    )
