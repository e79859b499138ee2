-- ===== src/Chat/Fake.antt =====
-- guyos_core/src/ports/outbound/fake_relay_chat_backend.rs.
use guyos.Prelude.{Bool, true, false, Option, none, some, Result, ok, err, if◌then◌else◌}
use guyos.Text.{Text, lit, is_empty}
use guyos.Session.{Poll, ready, pending}
use guyos.Chat.{
  ChatError, invalid_ticket_of, ChatMessage, Mailbox, Names, Turn, post, RelayChatBackend,
}

pub record FakeRelayChatBackend : Type 0 where
  pub pending_ticket : Option Text
  pub joined : Bool
  pub last_send : Option Text

unfoldable pub new_backend : FakeRelayChatBackend
new_backend = record { pending_ticket = none; joined = false; last_send = none }

unfoldable pub begin_open_room_inner :
    FakeRelayChatBackend → Poll (Result Text ChatError) × FakeRelayChatBackend
begin_open_room_inner f =
    let ticket = lit "fake-open-ticket" in
    (ready (ok ticket), record f { pending_ticket = some ticket })

unfoldable pub finish_open_join_pending_inner :
    FakeRelayChatBackend → Mailbox → Names → Option Text → Turn FakeRelayChatBackend (Unit {0})
finish_open_join_pending_inner f message_tx names display_name = record {
  answer = ready (ok tt);
  state = record f { joined = true; pending_ticket = none };
  mailbox = message_tx;
  names = names;
}

unfoldable pub join_room_inner :
    FakeRelayChatBackend
    → Text
    → Mailbox
    → Names
    → Option Text
    → Turn FakeRelayChatBackend (Unit {0})
join_room_inner f ticket_str message_tx names display_name =
    if is_empty ticket_str
    then record {
      answer = ready (err (invalid_ticket_of (λ s. s) (lit "empty ticket")));
      state = f;
      mailbox = message_tx;
      names = names;
    }
    else record {
      answer = ready (ok tt);
      state = record f { joined = true };
      mailbox = message_tx;
      names = names;
    }

abbrev pub echo : Text → ChatMessage
echo text = record { id = lit "fake"; from = lit "self"; text = text }

-- The answer once the echo has been posted.
abbrev posted : Poll (Unit {0}) → Poll (Result (Unit {0}) ChatError)
posted (ready u) = ready (ok tt)
posted pending = pending

unfoldable pub send_user_message_inner :
    FakeRelayChatBackend
    → Option Text
    → Text
    → Mailbox
    → Names
    → Turn FakeRelayChatBackend (Unit {0})
unfolding post
send_user_message_inner f display_name text message_tx names =
    let (p, box) = post message_tx (echo text) in
    record {
      answer = posted p;
      state = record f { last_send = some text };
      mailbox = box;
      names = names;
    }

-- `impl RelayChatBackend for FakeRelayChatBackend`.
abbrev pub fake_backend : RelayChatBackend
fake_backend = record {
  State = FakeRelayChatBackend;
  begin_open_room = begin_open_room_inner;
  finish_open_join_pending = finish_open_join_pending_inner;
  join_room = join_room_inner;
  send_user_message = send_user_message_inner;
}
