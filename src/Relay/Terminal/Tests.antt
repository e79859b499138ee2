-- ===== src/Relay/Terminal/Tests.antt =====
-- One typed line over the fake backend, and a join that the backend refuses.
use guyos.Prelude.{◌≡◌, refl, none, List, [], ◌∷◌, ok, err, arith}
use guyos.Text.{Text, lit}
use guyos.Text.Utf8.{ascii-is_utf8}
use guyos.Session.{ready}
use guyos.Chat.{ClientChatService, fmt_chat_error, invalid_ticket}
use guyos.Chat
use guyos.Chat.Fake.{fake_backend, new_backend, join_room_inner}
use guyos.Chat.Echo.{Service, Receives, after_sends}
use guyos.Relay.{join, input_loop}
use guyos.Relay.Typing.{taken, typed}
use guyos.Relay.Terminal.{run_command, forward_lines}
use guyos.Relay.Terminal.Sending.{sent_lines, forward_lines-typed}

abbrev fresh : Service
fresh = record {
  backend = new_backend;
  name = none;
  names = [];
  messages = record { queue = []; capacity = 100 };
  spawned = 0;
}

abbrev texts : List Text
texts = (b'h' ∷ b'i' ∷ 10 ∷ []) ∷ [] ∷ []

forward_lines-typed_example :
    (forward_lines fake_backend fresh (input_loop (taken 2) (typed ((b'h' ∷ b'i' ∷ []) ∷ []))).0
      ≡ (ready (ok tt), after_sends fresh texts, sent_lines texts))
    × Receives (after_sends fresh texts) texts
forward_lines-typed_example =
    forward_lines-typed fresh ((b'h' ∷ b'i' ∷ []) ∷ []) 1
      (
        (
          (omega arith, (omega arith, tt)),
          ascii-is_utf8 (b'h' ∷ b'i' ∷ []) (omega arith, (omega arith, tt)),
        ),
        tt,
      )
      refl (omega arith)

empty_ticket :
    (run_command fake_backend (λ t. ok t) fresh (join [])).0
    ≡ ready (err (fmt_chat_error (invalid_ticket (lit "empty ticket"))))
unfolding run_command Chat.join join_room_inner
empty_ticket = refl
