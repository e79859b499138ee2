-- ===== src/Gossip/Opening.antt =====
-- guyos_core/src/adapters/outbound/iroh_gossip_relay_backend.rs: the text of a ticket, the stack of the
-- network, and the opening and joining of a room. What the network and the random numbers give to a call is an
-- argument; what a call asks of the network is a part of its outcome.
pub mod Stack
pub mod Meeting
mod Tests
use guyos.Prelude.{Option, none, some, List, [], ◌∷◌, Result, ok, err, ◌>>=◌, map_err}
use guyos.Text.{Bytes, Text, lit}
use guyos.Text.Ascii.{to_ascii_lowercase, to_ascii_uppercase}
use guyos.Chat.{ChatError, endpoint_bind, invalid_ticket, gossip, send, internal}
use guyos.Gossip.{GossipCrates, Ticket, Message, new_message, about_me, IrohGossipRelayBackend}

module _ (G : GossipCrates) where
  abbrev pub RoomTicket : Type 0
  RoomTicket = Ticket G.TopicId G.EndpointAddr

  abbrev pub Backend : Type 0
  Backend = IrohGossipRelayBackend G

  -- `impl Display for Ticket`
  unfoldable pub ticket_to_string : RoomTicket → Text
  ticket_to_string t = to_ascii_lowercase (G.base32_encode (G.ticket_to_vec t))

  unfoldable pub ticket_from_bytes : Bytes → Result RoomTicket ChatError
  ticket_from_bytes bytes = map_err invalid_ticket (G.ticket_from_slice bytes)

  unfoldable pub ticket_from_str : Text → Result RoomTicket ChatError
  ticket_from_str s = do
    bytes ← map_err invalid_ticket (G.base32_decode (to_ascii_uppercase s))
    ticket_from_bytes bytes

  -- `IrohGossipRelayBackend::new`
  abbrev pub new_gossip_backend : Backend
  new_gossip_backend = record {
    endpoint = none;
    gossip = none;
    router = none;
    sender = none;
    pending_topic = none;
  }

  -- What the network answers in one call, and the random numbers of the call.
  pub record Network : Type 0 where
    pub bind : Result G.Endpoint Text
    pub subscribe_and_join : Result G.GossipSender Text
    pub broadcast : Result (Unit {0}) Text
    pub random_topic : G.TopicId
    pub random_nonce : Bytes

  -- What a call asks of the network.
  pub data Effect : Type 0 where
    subscribed : G.TopicId → List G.EndpointId → Effect
    broadcasted : Bytes → Effect
    loop_spawned : Effect

  pub record Run (A : Type 0) : Type 0 where
    pub answer : Result A ChatError
    pub backend : Backend
    pub effects : List Effect

  abbrev pub bind_stack : Backend → Result G.Endpoint Text → Result (Unit {0}) ChatError × Backend
  bind_stack b (err e) = (err (endpoint_bind e), b)
  bind_stack b (ok endpoint) = (
    ok tt,
    record b {
      endpoint = some endpoint;
      gossip = some (G.spawn_gossip endpoint);
      router = some (G.spawn_router endpoint (G.spawn_gossip endpoint));
    },
  )

  abbrev pub stack_at :
      Network → Backend → Option G.Endpoint → Result (Unit {0}) ChatError × Backend
  stack_at net b (some endpoint) = (ok tt, b)
  stack_at net b none = bind_stack b net.bind

  unfoldable pub ensure_stack : Network → Backend → Result (Unit {0}) ChatError × Backend
  ensure_stack net b = stack_at net b b.endpoint

  abbrev pub about_me_message : G.EndpointId → Text → Bytes → Message G.EndpointId
  about_me_message me name nonce = new_message G (about_me me name) nonce

  -- The broadcast of the name, and the spawn of the loop behind it.
  abbrev pub announced : Backend → Bytes → Result (Unit {0}) Text → Run (Unit {0})
  announced b message (err e) = record {
    answer = err (send e);
    backend = b;
    effects = broadcasted message ∷ [];
  }
  announced b message (ok u) = record {
    answer = ok tt;
    backend = b;
    effects = broadcasted message ∷ loop_spawned ∷ [];
  }

  -- `if let (Some(name), Some(endpoint)) = (display_name, &self.endpoint)` and what follows it.
  unfoldable pub announce : Network → Backend → Option Text → Option G.Endpoint → Run (Unit {0})
  announce net b (some name) (some endpoint) =
      announced b (G.to_vec (about_me_message (G.id endpoint) name net.random_nonce)) net.broadcast
  announce net b (some name) none = record {
    answer = ok tt;
    backend = b;
    effects = loop_spawned ∷ [];
  }
  announce net b none endpoint = record { answer = ok tt; backend = b; effects = loop_spawned ∷ [] }

  abbrev pub after_join : Effect → Run (Unit {0}) → Run (Unit {0})
  after_join e r = record r { effects = e ∷ r.effects }

  abbrev pub joined :
      Network
      → Backend
      → G.TopicId
      → List G.EndpointId
      → Option Text
      → Result G.GossipSender Text
      → Run (Unit {0})
  joined net b topic endpoint_ids display_name (err e) = record {
    answer = err (gossip e);
    backend = b;
    effects = subscribed topic endpoint_ids ∷ [];
  }
  joined net b topic endpoint_ids display_name (ok sender) =
      after_join (subscribed topic endpoint_ids)
        (announce net (record b { sender = some sender }) display_name b.endpoint)

  -- `none` is the panic of `self.gossip.as_ref().unwrap()`.
  abbrev pub join_over :
      Network
      → Backend
      → G.TopicId
      → List G.EndpointId
      → Option Text
      → Option G.Gossip
      → Option (Run (Unit {0}))
  join_over net b topic endpoint_ids display_name none = none
  join_over net b topic endpoint_ids display_name (some g) =
      some (joined net b topic endpoint_ids display_name net.subscribe_and_join)

  unfoldable pub join_internal :
      Network → Backend → G.TopicId → List G.EndpointId → Option Text → Option (Run (Unit {0}))
  join_internal net b topic endpoint_ids display_name =
      join_over net b topic endpoint_ids display_name b.gossip

  abbrev pub opened : Network → Backend → Option G.Endpoint → Option (Run Text)
  opened net b none = none
  opened net b (some endpoint) = some (record {
    answer =
        ok (
          ticket_to_string (record { topic = net.random_topic; endpoints = G.addr endpoint ∷ [] }));
    backend = record b { pending_topic = some net.random_topic };
    effects = [];
  })

  -- `none` is the panic of `self.endpoint.as_ref().unwrap()`.
  abbrev pub begin_over : Network → Result (Unit {0}) ChatError × Backend → Option (Run Text)
  begin_over net (err e, b) = some (record { answer = err e; backend = b; effects = [] })
  begin_over net (ok u, b) = opened net b b.endpoint

  unfoldable pub begin_open_room_by_gossip : Network → Backend → Option (Run Text)
  begin_open_room_by_gossip net b = begin_over net (ensure_stack net b)

  abbrev pub finish_pending :
      Network → Backend → Option Text → Option G.TopicId → Option (Run (Unit {0}))
  finish_pending net b display_name none = some (record {
    answer = err (internal (lit "open room has no pending topic"));
    backend = b;
    effects = [];
  })
  finish_pending net b display_name (some topic) =
      join_internal net (record b { pending_topic = none }) topic [] display_name

  unfoldable pub finish_open_join_pending_by_gossip :
      Network → Backend → Option Text → Option (Run (Unit {0}))
  finish_open_join_pending_by_gossip net b display_name =
      finish_pending net b display_name b.pending_topic

  abbrev pub ids_of : List G.EndpointAddr → List G.EndpointId
  ids_of [] = []
  ids_of (a ∷ rest) = G.addr_id a ∷ ids_of rest

  abbrev pub join_stacked :
      Network
      → RoomTicket
      → Option Text
      → Result (Unit {0}) ChatError × Backend
      → Option (Run (Unit {0}))
  join_stacked net ticket display_name (err e, b) =
      some (record { answer = err e; backend = b; effects = [] })
  join_stacked net ticket display_name (ok u, b) =
      join_internal net b ticket.topic (ids_of ticket.endpoints) display_name

  abbrev pub join_ticket :
      Network → Backend → Option Text → Result RoomTicket ChatError → Option (Run (Unit {0}))
  join_ticket net b display_name (err e) =
      some (record { answer = err e; backend = b; effects = [] })
  join_ticket net b display_name (ok ticket) =
      join_stacked net ticket display_name (ensure_stack net b)

  unfoldable pub join_room_by_gossip :
      Network → Backend → Text → Option Text → Option (Run (Unit {0}))
  join_room_by_gossip net b ticket_str display_name =
      join_ticket net b display_name (ticket_from_str ticket_str)
