-- ===== src/Gossip/Opening/Tests.antt =====
-- A host and a guest over the sample crates.
use guyos.Prelude.{◌≡◌, refl, true, none, some, List, [], ◌∷◌, ok, inr}
use guyos.Text.{Text}
use guyos.Text.Ascii.{to_ascii_uppercase, to_ascii_lowercase}
use guyos.Gossip.Sample.{sample_gossip}
use guyos.Gossip.Opening.{
  RoomTicket, Backend, Network, Run, subscribed, ticket_to_string, new_gossip_backend, ensure_stack,
  begin_open_room_by_gossip, finish_open_join_pending_by_gossip, join_room_by_gossip,
}
use guyos.Gossip.Opening.Stack.{Bound, Stacked, Call, begin_open, finish_open, calls, calls-Stacked}
use guyos.Gossip.Opening.Meeting.{Asked, opened-joined}

-- A network on which all goes well.
abbrev net : Network sample_gossip
net = record {
  bind = ok true;
  subscribe_and_join = ok true;
  broadcast = ok tt;
  random_topic = true;
  random_nonce = [];
}

abbrev fresh : Backend sample_gossip
fresh = new_gossip_backend sample_gossip

fresh-Stacked : Stacked sample_gossip fresh
fresh-Stacked = inr (refl, refl, refl, refl, refl)

abbrev room_ticket : RoomTicket sample_gossip
room_ticket = record { topic = true; endpoints = true ∷ [] }

-- The second finish finds no topic.
abbrev open_twice : List (Network sample_gossip × Call sample_gossip)
open_twice = (net, begin_open) ∷ (net, finish_open none) ∷ (net, finish_open none) ∷ []

calls-Stacked_example :
    (b' : Backend sample_gossip) × (calls sample_gossip open_twice fresh ≡ some b')
    × Stacked sample_gossip b'
    × ((endpoint : sample_gossip.Endpoint)
        → Bound sample_gossip endpoint fresh
        → Bound sample_gossip endpoint b')
calls-Stacked_example = calls-Stacked sample_gossip open_twice fresh fresh-Stacked

abbrev host_ticket : Text
host_ticket = ticket_to_string sample_gossip room_ticket

abbrev host_run : Run sample_gossip Text
host_run = record {
  answer = ok host_ticket;
  backend = record {
    endpoint = some true;
    gossip = some true;
    router = some true;
    sender = none;
    pending_topic = some true;
  };
  effects = [];
}

host_opens : begin_open_room_by_gossip sample_gossip net fresh ≡ some host_run
unfolding begin_open_room_by_gossip ensure_stack
host_opens = refl

guest_ensures : (ensure_stack sample_gossip net fresh).0 ≡ ok tt
unfolding ensure_stack
guest_ensures = refl

opened-joined_example :
    (endpoint : sample_gossip.Endpoint) × (host_run.backend.endpoint ≡ some endpoint)
    × Asked sample_gossip
        (subscribed true [])
        (finish_open_join_pending_by_gossip sample_gossip net host_run.backend none)
    × Asked sample_gossip
        (subscribed true (sample_gossip.id endpoint ∷ []))
        (join_room_by_gossip sample_gossip net fresh (to_ascii_uppercase host_ticket) none)
unfolding to_ascii_uppercase to_ascii_lowercase ticket_to_string
opened-joined_example =
    opened-joined sample_gossip net net net fresh fresh none none host_run host_ticket
      (to_ascii_uppercase host_ticket) fresh-Stacked fresh-Stacked host_opens refl refl
      guest_ensures
