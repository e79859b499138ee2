-- ===== src/Gossip/Opening/Meeting.antt =====
-- The ticket of a room, and the two peers that meet by it.
use guyos.Prelude.{
  ◌≡◌, refl, sym, ap, ◌∙◌, inl, inr, Option, none, some, List, [], ◌∷◌, Result, ok, err, arith,
  subst, ok-inj,
}
use guyos.Text.{Text}
use guyos.Text.Ascii.{to_ascii_uppercase, uppercase-lowercase}
use guyos.Gossip.{GossipCrates}
use guyos.Gossip.Opening.{
  RoomTicket, Backend, Network, Run, Effect, subscribed, ticket_to_string, ticket_from_bytes,
  ticket_from_str, ensure_stack, begin_open_room_by_gossip, finish_open_join_pending_by_gossip,
  join_room_by_gossip, opened, begin_over, joined, join_internal, finish_pending, join_ticket,
  join_stacked, ids_of,
}
use guyos.Gossip.Opening.Stack.{Bound, Stacked, join-Bound, ensured}

module _ (G : GossipCrates) where
  -- The text of a ticket is read back as that ticket, in whatever case its letters have been
  -- written.
  pub from_str-to_string :
      (t : RoomTicket G) (text : Text)
      → to_ascii_uppercase text ≡ to_ascii_uppercase (ticket_to_string G t)
      → ticket_from_str G text ≡ ok t
  unfolding ticket_from_str ticket_from_bytes ticket_to_string
  from_str-to_string t text h =
      rw
        (
          ticket_from_str,
          h,
          uppercase-lowercase (G.base32_encode (G.ticket_to_vec t))
              (G.base32_encode-IsBase32 (G.ticket_to_vec t) (G.ticket_to_vec-IsByte t)),
          G.base32_decode-encode (G.ticket_to_vec t) (G.ticket_to_vec-IsByte t),
          G.ticket_from_slice-to_vec t,
        )
        refl

  -- The outcome of a call that began by asking for this.
  abbrev pub Asked : Effect G → Option (Run G (Unit {0})) → Type 0
  Asked effect o =
      (r : Run G (Unit {0})) × (rest : List (Effect G)) × (o ≡ some r) × (r.effects ≡ effect ∷ rest)

  joined-Asked :
      (net : Network G) (b : Backend G) (topic : G.TopicId) (ids : List G.EndpointId)
      (name : Option Text) (answer : Result G.GossipSender Text)
      → Asked (subscribed topic ids) (some (joined G net b topic ids name answer))
  joined-Asked net b topic ids name (err e) = (_, _, refl, refl)
  joined-Asked net b topic ids name (ok sender) = (_, _, refl, refl)

  join-Asked :
      (net : Network G) (b : Backend G) (endpoint : G.Endpoint) (topic : G.TopicId)
      (ids : List G.EndpointId) (name : Option Text)
      → Bound G endpoint b
      → Asked (subscribed topic ids) (join_internal G net b topic ids name)
  join-Asked net b endpoint topic ids name h =
      let (r, rest, e, effects) = joined-Asked net b topic ids name net.subscribe_and_join in
      (r, rest, join-Bound G net topic ids name b endpoint h ∙ e, effects)

  finish-Asked :
      (net : Network G) (b : Backend G) (endpoint : G.Endpoint) (topic : G.TopicId)
      (name : Option Text)
      → Bound G endpoint b
      → b.pending_topic ≡ some topic
      → Asked (subscribed topic []) (finish_open_join_pending_by_gossip G net b name)
  unfolding finish_open_join_pending_by_gossip
  finish-Asked net b endpoint topic name bound h =
      let (r, rest, e, effects) =
        join-Asked net (record b { pending_topic = none }) endpoint topic [] name bound in
      (r, rest, ap (finish_pending G net b name) h ∙ e, effects)

  -- The ticket of an endpoint, as the guest reads it.
  guest-Asked :
      (net : Network G) (guest : Backend G) (name : Option Text) (topic : G.TopicId)
      (endpoint : G.Endpoint) (text : Text)
      → Stacked G guest
      → (ensure_stack G net guest).0 ≡ ok tt
      → ticket_from_str G text ≡ ok (record { topic = topic; endpoints = G.addr endpoint ∷ [] })
      → Asked (subscribed topic (G.id endpoint ∷ [])) (join_room_by_gossip G net guest text name)
  unfolding join_room_by_gossip
  guest-Asked net guest name topic endpoint text stacked ensures read =
      elim (ensured G net guest stacked) [
        | inr (m, e, u) ↦ absurd (ground (arith, e, ensures))
        | inl (own, guest', e, bound, pending, keeps) ↦
            let ids_eq : ids_of G (G.addr endpoint ∷ []) ≡ G.id endpoint ∷ [] =
              ap (λ i. i ∷ []) (G.addr_id-addr endpoint) in
            let (r, rest, joins, effects) =
              join-Asked net guest' own topic (G.id endpoint ∷ []) name bound in
            (
              r,
              rest,
              ap (join_ticket G net guest name) read
                  ∙ ap
                      (join_stacked G net
                        (record { topic = topic; endpoints = G.addr endpoint ∷ [] }) name)
                      e
                  ∙ ap (λ ids. join_internal G net guest' topic ids name) ids_eq
                  ∙ joins,
              effects,
            )
      ]

  abbrev opened_run : Network G → Backend G → G.Endpoint → Run G Text
  opened_run net b endpoint = record {
    answer = ok (
        ticket_to_string G (record { topic = net.random_topic; endpoints = G.addr endpoint ∷ [] }));
    backend = record b { pending_topic = some net.random_topic };
    effects = [];
  }

  -- What `begin_open_room` leaves when it gives a ticket.
  begun :
      (net : Network G) (host : Backend G) (r : Run G Text) (ticket : Text)
      → Stacked G host
      → begin_open_room_by_gossip G net host ≡ some r
      → r.answer ≡ ok ticket
      → (endpoint : G.Endpoint) × Bound G endpoint r.backend
        × (r.backend.pending_topic ≡ some net.random_topic)
        × (ticket
            ≡ ticket_to_string G
                (record { topic = net.random_topic; endpoints = G.addr endpoint ∷ [] }))
  unfolding begin_open_room_by_gossip
  begun net host r ticket stacked h answer = elim (ensured G net host stacked) [
    | inr (m, e, u) ↦ absurd (ground (arith, sym (ap (begin_over G net) e) ∙ h, answer))
    | inl (endpoint, host', e, bound, pending, keeps) ↦
        let left = sym (ap (begin_over G net) e ∙ ap (opened G net host') bound.0) ∙ h in
        let same : opened_run net host' endpoint ≡ r = cc left in
        (
          endpoint,
          subst (λ x. Bound G endpoint x.backend) same bound,
          subst (λ x. x.backend.pending_topic ≡ some net.random_topic) same refl,
          ok-inj (sym answer ∙ ap (λ x. x.answer) (sym same)),
        )
  ]

  -- The ticket of a host that has opened a room, in whatever case it is written, leads a guest
  -- there: when the host finishes its opening it asks for the topic of the ticket, with no peer
  -- to ask, and a guest whose stack is bound or can be asks for the same topic by the id of the
  -- host. Both backends have the whole stack of an endpoint, or nothing of it as a new one.
  pub opened-joined :
      (net net1 net2 : Network G) (host guest : Backend G) (name1 name2 : Option Text)
      (r : Run G Text) (ticket text : Text)
      → Stacked G host
      → Stacked G guest
      → begin_open_room_by_gossip G net host ≡ some r
      → r.answer ≡ ok ticket
      → to_ascii_uppercase text ≡ to_ascii_uppercase ticket
      → (ensure_stack G net2 guest).0 ≡ ok tt
      → (endpoint : G.Endpoint) × (r.backend.endpoint ≡ some endpoint)
        × Asked
            (subscribed net.random_topic [])
            (finish_open_join_pending_by_gossip G net1 r.backend name1)
        × Asked
            (subscribed net.random_topic (G.id endpoint ∷ []))
            (join_room_by_gossip G net2 guest text name2)
  opened-joined net net1 net2 host guest name1 name2 r ticket text hosts guests opens answer written
        ensures =
      let (endpoint, bound, pending, ticket_eq) = begun net host r ticket hosts opens answer in
      (
        endpoint,
        bound.0,
        finish-Asked net1 r.backend endpoint net.random_topic name1 bound pending,
        guest-Asked net2 guest name2 net.random_topic endpoint text guests ensures (
            from_str-to_string
              (record { topic = net.random_topic; endpoints = G.addr endpoint ∷ [] }) text
              (written ∙ ap to_ascii_uppercase ticket_eq)),
      )
