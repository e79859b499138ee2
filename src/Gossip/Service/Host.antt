-- ===== src/Gossip/Service/Host.antt =====
-- A host that opens a room over the service, and its first message.
use guyos.Prelude.{ℕ, ◌≡◌, refl, Option, none, some, List, [], ◌∷◌, ok}
use guyos.Text.{Bytes, Text}
use guyos.Session.{ready}
use guyos.Chat.{ChatMessage, post, new_service, open_room, run_spawned, send_text, next_message}
use guyos.Gossip.{
  GossipCrates, Event, received, send_user_message_by_gossip, broadcast_and_echo, message_of,
  message_of,
}
use guyos.Gossip.Opening.{
  about_me_message, RoomTicket, Network, Effect, subscribed, broadcasted, loop_spawned,
  ticket_to_string, ensure_stack, announce, join_internal, begin_open_room_by_gossip,
  finish_open_join_pending_by_gossip,
}
use guyos.Gossip.Service.{Chat, new_chat, open_chat, send_chat, next_chat_message, run_spawned_join}

module _ (G : GossipCrates) where
  -- A network on which all goes well, with these random numbers for each call.
  abbrev pub good : G.Endpoint → G.GossipSender → (ℕ → G.TopicId) → (ℕ → Bytes) → ℕ → Network G
  good endpoint sender topic nonce i = record {
    bind = ok endpoint;
    subscribe_and_join = ok sender;
    broadcast = ok tt;
    random_topic = topic i;
    random_nonce = nonce i;
  }

  -- What the others receive of what has been asked of the network.
  abbrev pub heard : List (Effect G) → List Event
  heard [] = []
  heard (broadcasted message ∷ es) = received message ∷ heard es
  heard (subscribed topic ids ∷ es) = heard es
  heard (loop_spawned ∷ es) = heard es

  module _ (endpoint : G.Endpoint) (sender : G.GossipSender) (topic : ℕ → G.TopicId)
      (nonce : ℕ → Bytes) where
    abbrev pub net : ℕ → Network G
    net i = good endpoint sender topic nonce i

    -- A host that has opened a room, and whose spawned task has run.
    abbrev pub opening : Option Text → Chat G net
    opening name = (open_chat G net (new_chat G net name)).1

    abbrev pub host : Option Text → Chat G net
    host name = run_spawned_join G net (opening name)

    abbrev pub room : RoomTicket G
    room = record { topic = topic 0; endpoints = G.addr endpoint ∷ [] }

    pub host_ticket :
        (name : Option Text)
        → (open_chat G net (new_chat G net name)).0 ≡ ready (ok (ticket_to_string G room))
    unfolding new_service open_room begin_open_room_by_gossip ensure_stack
    host_ticket name = refl

    -- The name of the host, or its short id.
    abbrev pub host_name : Option Text → Text
    host_name none = G.fmt_short (G.id endpoint)
    host_name (some own) = own

    -- The first message of the host.
    abbrev pub first_message : Option Text → Text → ChatMessage
    first_message name text = record {
      id = G.hexlower_encode (nonce 2);
      from = host_name name;
      text = text;
    }

    pub host_sends :
        (name : Option Text) (text : Text) → (send_chat G net (host name) text).0 ≡ ready (ok tt)
    unfolding new_service open_room run_spawned send_text begin_open_room_by_gossip ensure_stack
        finish_open_join_pending_by_gossip join_internal announce send_user_message_by_gossip
        broadcast_and_echo post
    host_sends none text = refl
    host_sends (some name) text = refl

    pub host_shows :
        (name : Option Text) (text : Text)
        → (next_chat_message G net (send_chat G net (host name) text).1).0
          ≡ ready (some (first_message name text))
    unfolding new_service open_room run_spawned send_text begin_open_room_by_gossip ensure_stack
        finish_open_join_pending_by_gossip join_internal announce send_user_message_by_gossip
        broadcast_and_echo post next_message
    host_shows none text = refl
    host_shows (some name) text = refl

    -- All that the others receive of the host up to its first message.
    abbrev pub said_by_host : Option Text → Text → List Event
    said_by_host name text = heard (send_chat G net (host name) text).1.inner.backend.effects

    -- What the first message follows: the name of the host, when it has one.
    pub said_unnamed :
        (text : Text)
        → said_by_host none text
          ≡ received (G.to_vec (message_of G (G.id endpoint) text (nonce 2))) ∷ []
    unfolding new_service open_room run_spawned send_text begin_open_room_by_gossip ensure_stack
        finish_open_join_pending_by_gossip join_internal announce send_user_message_by_gossip
        broadcast_and_echo post
    said_unnamed text = refl

    pub said_named :
        (name text : Text)
        → said_by_host (some name) text
          ≡ received (G.to_vec (about_me_message G (G.id endpoint) name (nonce 1)))
            ∷ received (G.to_vec (message_of G (G.id endpoint) text (nonce 2)))
            ∷ []
    unfolding new_service open_room run_spawned send_text begin_open_room_by_gossip ensure_stack
        finish_open_join_pending_by_gossip join_internal announce send_user_message_by_gossip
        broadcast_and_echo post
    said_named name text = refl
