-- ===== src/Gossip.antt =====
-- guyos_core/src/adapters/outbound/iroh_gossip_relay_backend.rs: the messages between peers, the loop
-- that receives them and the sending of one. The network, the random nonces, the endpoint ids and the
-- JSON of the messages are parameters.
pub mod Naming
pub mod Opening
pub mod Sample
pub mod Service
pub mod Receiving
mod Tests
use guyos.Prelude.{
  ◌≡◌, if◌then◌else◌, Bool, true, false, Option, All, none, some, List, [], ◌∷◌, ◌++◌, Result, ok,
  err, map_err,
}
use guyos.Text.{Bytes, Text, IsByte}
use guyos.Text.Ascii.{IsBase32}
use guyos.HashMap
use guyos.Ledger.{text_key}
use guyos.Chat.{ChatError, gossip, send, internal, ChatMessage, Names}

pub data MessageBody (EndpointId : Type 0) : Type 0 where
  about_me : EndpointId → Text → MessageBody EndpointId
  message : EndpointId → Text → MessageBody EndpointId

pub record Message (EndpointId : Type 0) : Type 0 where
  pub body : MessageBody EndpointId
  pub nonce : Bytes

-- `Ticket`: where the room is, and whom to ask.
pub record Ticket (TopicId EndpointAddr : Type 0) : Type 0 where
  pub topic : TopicId
  pub endpoints : List EndpointAddr

-- iroh's endpoints with their ids and addresses, iroh-gossip's handles, `HEXLOWER.encode` and
-- `BASE32_NOPAD` of data-encoding, and serde_json on `Message` and `Ticket`: `to_vec` never fails, and is
-- read back.
pub record GossipCrates : Type 1 where
  pub EndpointId : Type 0
  pub EndpointAddr : Type 0
  pub Endpoint : Type 0
  pub Gossip : Type 0
  pub Router : Type 0
  pub GossipSender : Type 0
  pub TopicId : Type 0
  pub id : Endpoint → EndpointId
  pub addr : Endpoint → EndpointAddr
  pub addr_id : EndpointAddr → EndpointId
  pub addr_id-addr : (e : Endpoint) → addr_id (addr e) ≡ id e
  pub spawn_gossip : Endpoint → Gossip
  pub spawn_router : Endpoint → Gossip → Router
  pub base32_encode : Bytes → Text
  pub base32_decode : Text → Result Bytes Text
  pub base32_encode-IsBase32 : (b : Bytes) → All IsByte b → All IsBase32 (base32_encode b)
  pub base32_decode-encode : (b : Bytes) → All IsByte b → base32_decode (base32_encode b) ≡ ok b
  pub ticket_to_vec : Ticket TopicId EndpointAddr → Bytes
  pub ticket_from_slice : Bytes → Result (Ticket TopicId EndpointAddr) Text
  pub ticket_to_vec-IsByte : (t : Ticket TopicId EndpointAddr) → All IsByte (ticket_to_vec t)
  pub ticket_from_slice-to_vec :
      (t : Ticket TopicId EndpointAddr) → ticket_from_slice (ticket_to_vec t) ≡ ok t
  pub fmt_short : EndpointId → Text
  pub hexlower_encode : Bytes → Text
  pub to_vec : Message EndpointId → Bytes
  pub from_slice : Bytes → Result (Message EndpointId) Text
  pub from_slice-to_vec : (m : Message EndpointId) → from_slice (to_vec m) ≡ ok m

-- `Event`: what was received, or one of the events that the loop passes over.
pub data Event : Type 0 where
  received : Bytes → Event
  other : Event

module _ (G : GossipCrates) where
  unfoldable pub peer_key : G.EndpointId → Text
  peer_key id = G.fmt_short id

  -- `names.get(&peer_key(from)).cloned().unwrap_or_else(...)`
  abbrev pub name_or_short : G.EndpointId → Option Text → Text
  name_or_short from none = G.fmt_short from
  name_or_short from (some name) = name

  -- `match message.body`: the names after one message, and what it puts into the channel.
  unfoldable pub handle_body : Names → Bytes → MessageBody G.EndpointId → Names × List ChatMessage
  unfolding peer_key
  handle_body names nonce (about_me from name) =
      (HashMap.insert text_key names (peer_key from) name, [])
  handle_body names nonce (message from text) =
      let from_name = name_or_short from (HashMap.get text_key names (peer_key from)) in
      (names, record { id = G.hexlower_encode nonce; from = from_name; text = text } ∷ [])

  -- `Message::from_bytes`
  unfoldable pub from_bytes : Bytes → Result (Message G.EndpointId) ChatError
  from_bytes bytes = map_err internal (G.from_slice bytes)

  unfoldable pub handle_event : Names → Event → Names × List ChatMessage
  handle_event names other = (names, [])
  handle_event names (received content) = elim (from_bytes content) [
    | err e ↦ (names, [])
    | ok m ↦ handle_body names m.nonce m.body
  ]

  -- The loop: its result, the names that it leaves, and what it put into the channel, in order. An error
  -- of the receiver is the text that its crate prints. A wait for room in the channel is left
  -- out.
  unfoldable pub subscribe_loop :
      Names → List (Result Event Text) → Result (Unit {0}) ChatError × Names × List ChatMessage
  subscribe_loop names [] = (ok tt, names, [])
  subscribe_loop names (err e ∷ evs) = (err (gossip e), names, [])
  subscribe_loop names (ok ev ∷ evs) =
      let (names', out) = handle_event names ev in
      let (r, left, outs) = subscribe_loop names' evs in (r, left, out ++ outs)

  pub record IrohGossipRelayBackend : Type 0 where
    pub endpoint : Option G.Endpoint
    pub gossip : Option G.Gossip
    pub router : Option G.Router
    pub sender : Option G.GossipSender
    pub pending_topic : Option G.TopicId

  -- `display_name.map(str::to_string).unwrap_or_else(...)`
  abbrev pub display_or_short : G.EndpointId → Option Text → Text
  display_or_short me none = G.fmt_short me
  display_or_short me (some name) = name

  -- `Message::new`, with its random nonce.
  abbrev pub new_message : MessageBody G.EndpointId → Bytes → Message G.EndpointId
  new_message body nonce = record { body = body; nonce = nonce }

  -- The message that a text is broadcast as, with a random nonce.
  abbrev pub message_of : G.EndpointId → Text → Bytes → Message G.EndpointId
  message_of me text nonce = new_message (message me text) nonce

  -- With an endpoint and a sender: the broadcast with the network's answer, then the echo.
  unfoldable pub broadcast_and_echo :
      G.EndpointId
      → Option Text
      → Text
      → Bytes
      → Result (Unit {0}) Text
      → Result (Unit {0}) ChatError × List Bytes × List ChatMessage
  broadcast_and_echo me display_name text nonce (err e) =
      (err (send e), G.to_vec (message_of me text nonce) ∷ [], [])
  broadcast_and_echo me display_name text nonce (ok u) = (
    ok tt,
    G.to_vec (message_of me text nonce) ∷ [],
    record { id = G.hexlower_encode nonce; from = display_or_short me display_name; text = text }
        ∷ [],
  )

  -- The result, what was given to the network, and what went into the service's channel.
  unfoldable pub send_user_message_by_gossip :
      IrohGossipRelayBackend
      → Option Text
      → Text
      → Bytes
      → Result (Unit {0}) Text
      → Result (Unit {0}) ChatError × List Bytes × List ChatMessage
  unfolding broadcast_and_echo
  send_user_message_by_gossip b display_name text nonce answer = elim b.sender [
    | none ↦ (ok tt, [], [])
    | some sender ↦ elim b.endpoint [
      | none ↦ (ok tt, [], [])
      | some e ↦ broadcast_and_echo (G.id e) display_name text nonce answer
    ]
  ]
