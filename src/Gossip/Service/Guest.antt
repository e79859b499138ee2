-- ===== src/Gossip/Service/Guest.antt =====
-- A guest that joins over the service by a ticket.
use guyos.Prelude.{ℕ, ◌≡◌, refl, subst, sym, Option, none, some, [], Result, ok}
use guyos.Text.{Bytes, Text}
use guyos.Session.{Poll, ready}
use guyos.Chat.{ChatError, new_service, join}
use guyos.Gossip.{GossipCrates}
use guyos.Gossip.Opening.{
  RoomTicket, Network, ticket_from_str, ensure_stack, announce, join_internal, join_ticket,
  new_gossip_backend, Run, join_room_by_gossip,
}
use guyos.Gossip.Service.{Chat, join_turn, new_chat, join_chat}
use guyos.Gossip.Service.Host.{good}

module _ (G : GossipCrates) where
  module _ (endpoint : G.Endpoint) (sender : G.GossipSender) (topic : ℕ → G.TopicId)
      (nonce : ℕ → Bytes) where
    abbrev pub guest_net : ℕ → Network G
    guest_net i = good G endpoint sender topic nonce i

    -- What the join of a guest gives, from what its backend gives.
    abbrev pub joined_by :
        Option Text
        → Option (Run G (Unit {0}))
        → Poll (Result (Unit {0}) ChatError) × Chat G guest_net
    joined_by name o =
        let c = new_chat G guest_net name in
        let t = join_turn G guest_net c.inner.backend c.inner.messages c.inner.names o in
        (
          t.answer,
          record {
            inner = record c.inner { backend = t.state; messages = t.mailbox; names = t.names };
          },
        )

    -- A guest that joins by this text.
    abbrev pub joining : Option Text → Text → Poll (Result (Unit {0}) ChatError) × Chat G guest_net
    joining name written = join_chat G guest_net (new_chat G guest_net name) written

    abbrev pub stacked_run : Option Text → RoomTicket G → Option (Run G (Unit {0}))
    stacked_run name t = join_ticket G (guest_net 0) (new_gossip_backend G) name (ok t)

    -- It has joined, and has heard nothing yet.
    abbrev pub IsListening : Poll (Result (Unit {0}) ChatError) × Chat G guest_net → Type 0
    IsListening r =
        (r.0 ≡ ready (ok tt))
        × (r.1.inner.names ≡ [])
        × (r.1.inner.messages ≡ record { queue = []; capacity = 100 })

    stacked-IsListening :
        (name : Option Text) (t : RoomTicket G) → IsListening (joined_by name (stacked_run name t))
    unfolding new_service ensure_stack join_internal announce
    stacked-IsListening none t = (refl, refl, refl)
    stacked-IsListening (some name) t = (refl, refl, refl)

    pub guest-IsListening :
        (name : Option Text) (written : Text) (t : RoomTicket G)
        → ticket_from_str G written ≡ ok t
        → IsListening (joining name written)
    unfolding new_service join join_room_by_gossip
    guest-IsListening name written t read =
        subst
          (λ r.
            IsListening
              (joined_by name (join_ticket G (guest_net 0) (new_gossip_backend G) name r)))
          (sym read) (stacked-IsListening name t)
