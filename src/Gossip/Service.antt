-- ===== src/Gossip/Service.antt =====
-- The chat service over the gossip backend: `impl RelayChatBackend for IrohGossipRelayBackend` of
-- guyos_core/src/adapters/outbound/iroh_gossip_relay_backend.rs, guyos_core/src/infrastructure/mod.rs, and
-- guyos_core/src/adapters/inbound/chat.rs. Each call of the backend takes the next answers of the network.
pub mod Host
pub mod Guest
pub mod Conversation
mod Tests
use guyos.Prelude.{ℕ, ◌+◌, Option, none, some, List, [], ◌∷◌, ◌++◌, Result, ok, err}
use guyos.Text.{Bytes, Text}
use guyos.Session.{Poll, ready, pending}
use guyos.Chat.{
  ChatError, ChatMessage, Mailbox, post, Names, Turn, RelayChatBackend, ClientChatService,
  new_service, open_room, run_spawned, join, send_text, next_message,
}
use guyos.Gossip.{GossipCrates, Event, handle_event, send_user_message_by_gossip}
use guyos.Gossip.Opening.{
  Backend, Network, Run, Effect, broadcasted, new_gossip_backend, begin_open_room_by_gossip,
  finish_open_join_pending_by_gossip, join_room_by_gossip,
}

module _ (G : GossipCrates) (net : ℕ → Network G) where
  -- The backend, how many calls it has answered, and what it has asked of the network.
  pub record GossipState : Type 0 where
    pub backend : Backend G
    pub calls : ℕ
    pub effects : List (Effect G)

  abbrev pub ran : {A : Type 0} → GossipState → Run G A → GossipState
  ran s r = record { backend = r.backend; calls = s.calls + 1; effects = s.effects ++ r.effects }

  -- A call that panics never answers; Opening.Stack has that none does.
  abbrev pub begin_turn :
      GossipState → Option (Run G Text) → Poll (Result Text ChatError) × GossipState
  begin_turn s none = (pending, s)
  begin_turn s (some r) = (ready r.answer, ran s r)

  abbrev pub join_turn :
      GossipState → Mailbox → Names → Option (Run G (Unit {0})) → Turn GossipState (Unit {0})
  join_turn s message_tx names none = record {
    answer = pending;
    state = s;
    mailbox = message_tx;
    names = names;
  }
  join_turn s message_tx names (some r) = record {
    answer = ready r.answer;
    state = ran s r;
    mailbox = message_tx;
    names = names;
  }

  -- `let _ = message_tx.send(...).await`, for the echo when there is one.
  abbrev post_echo : Mailbox → List ChatMessage → Poll (Unit {0}) × Mailbox
  post_echo message_tx [] = (ready tt, message_tx)
  post_echo message_tx (m ∷ ms) = post message_tx m

  abbrev answered :
      Result (Unit {0}) ChatError → Poll (Unit {0}) → Poll (Result (Unit {0}) ChatError)
  answered r (ready u) = ready r
  answered r pending = pending

  abbrev broadcasts : List Bytes → List (Effect G)
  broadcasts [] = []
  broadcasts (message ∷ messages) = broadcasted message ∷ broadcasts messages

  abbrev pub send_turn :
      GossipState
      → Mailbox
      → Names
      → Result (Unit {0}) ChatError × List Bytes × List ChatMessage
      → Turn GossipState (Unit {0})
  send_turn s message_tx names (r, messages, echoes) =
      let (p, box) = post_echo message_tx echoes in
      record {
        answer = answered r p;
        state = record s { calls = s.calls + 1; effects = s.effects ++ broadcasts messages };
        mailbox = box;
        names = names;
      }

  -- `impl RelayChatBackend for IrohGossipRelayBackend`
  abbrev pub gossip_backend : RelayChatBackend
  gossip_backend = record {
    State = GossipState;
    begin_open_room = λ s. begin_turn s (begin_open_room_by_gossip G (net s.calls) s.backend);
    finish_open_join_pending = λ s message_tx names display_name.
        join_turn s message_tx names
          (finish_open_join_pending_by_gossip G (net s.calls) s.backend display_name);
    join_room = λ s ticket_str message_tx names display_name.
        join_turn s message_tx names
          (join_room_by_gossip G (net s.calls) s.backend ticket_str display_name);
    send_user_message = λ s display_name text message_tx names. send_turn s message_tx names (
        send_user_message_by_gossip G s.backend display_name text (net s.calls).random_nonce
          (net s.calls).broadcast);
  }

  abbrev pub GossipService : Type 0
  GossipService = ClientChatService gossip_backend

  -- `wire_chat_for_clients`
  abbrev pub wire_chat_for_clients : Option Text → GossipService
  wire_chat_for_clients name =
      new_service gossip_backend
        (record { backend = new_gossip_backend G; calls = 0; effects = [] }) name 100

  -- The handle of clients. Its clones share the service.
  pub record Chat : Type 0 where
    pub inner : GossipService

  abbrev pub new_chat : Option Text → Chat
  new_chat name = record { inner = wire_chat_for_clients name }

  abbrev pub with_inner : {A : Type 0} → A × GossipService → A × Chat
  with_inner (a, inner) = (a, record { inner = inner })

  abbrev pub open_chat : Chat → Poll (Result Text ChatError) × Chat
  open_chat c = with_inner (open_room gossip_backend c.inner)

  abbrev pub join_chat : Chat → Text → Poll (Result (Unit {0}) ChatError) × Chat
  join_chat c ticket_str = with_inner (join gossip_backend c.inner ticket_str)

  abbrev pub send_chat : Chat → Text → Poll (Result (Unit {0}) ChatError) × Chat
  send_chat c text = with_inner (send_text gossip_backend c.inner text)

  abbrev pub next_chat_message : Chat → Poll (Option ChatMessage) × Chat
  next_chat_message c = with_inner (next_message gossip_backend c.inner)

  -- The spawned task of an `open` runs.
  abbrev pub run_spawned_join : Chat → Chat
  run_spawned_join c = record { inner = run_spawned gossip_backend c.inner }

  -- The messages of one event, one after the other. With a full channel the loop waits, and the message is left
  -- out.
  abbrev post_all : Mailbox → List ChatMessage → Mailbox
  post_all message_tx [] = message_tx
  post_all message_tx (m ∷ ms) = post_all (post message_tx m).1 ms

  abbrev pub received_by : GossipService → Names × List ChatMessage → GossipService
  received_by s (names, out) = record s { names = names; messages = post_all s.messages out }

  -- One event at the receiving loop of the service, which shares its names and its channel.
  unfoldable pub receive_event : Chat → Event → Chat
  receive_event c ev = record { inner = received_by c.inner (handle_event G c.inner.names ev) }

  abbrev pub receive_events : Chat → List Event → Chat
  receive_events c [] = c
  receive_events c (ev ∷ evs) = receive_events (receive_event c ev) evs
