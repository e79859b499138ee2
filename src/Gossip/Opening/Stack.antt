-- ===== src/Gossip/Opening/Stack.antt =====
-- The stack of the network over any sequence of calls.
use guyos.Prelude.{
  ◌≡◌, subst, ◌⊎◌, refl, sym, ap, ◌∙◌, inl, inr, Option-cases, Result-cases, Option, none, some,
  List, [], ◌∷◌, Result, ok, err, arith,
}
use guyos.Text.{Text}
use guyos.Chat.{ChatError, endpoint_bind}
use guyos.Gossip.{GossipCrates}
use guyos.Gossip.Opening.{
  Backend, ids_of, bind_stack, stack_at, joined, join_over, begin_over, opened, finish_pending,
  join_stacked, join_ticket, Network, Run, ensure_stack, announce, join_internal,
  begin_open_room_by_gossip, finish_open_join_pending_by_gossip, join_room_by_gossip,
  ticket_from_str,
}

module _ (G : GossipCrates) where
  -- The whole stack of an endpoint.
  abbrev pub Bound : G.Endpoint → Backend G → Type 0
  Bound endpoint b =
      (b.endpoint ≡ some endpoint)
      × (b.gossip ≡ some (G.spawn_gossip endpoint))
      × (b.router ≡ some (G.spawn_router endpoint (G.spawn_gossip endpoint)))

  -- Nothing of a stack, and nothing that needs one.
  abbrev pub Unbound : Backend G → Type 0
  Unbound b =
      (b.endpoint ≡ none)
      × (b.gossip ≡ none)
      × (b.router ≡ none)
      × (b.sender ≡ none)
      × (b.pending_topic ≡ none)

  abbrev pub Stacked : Backend G → Type 0
  Stacked b = ((endpoint : G.Endpoint) × Bound endpoint b) ⊎ Unbound b

  -- The call does not panic, and leaves a stack, the same one when there was one.
  abbrev pub Safe : {A : Type 0} → Backend G → Option (Run G A) → Type 0
  Safe {A} b o =
      (r : Run G A) × (o ≡ some r)
      × Stacked r.backend
      × ((endpoint : G.Endpoint) → Bound endpoint b → Bound endpoint r.backend)

  module _ (net : Network G) (b : Backend G) where
    pub ensure-Bound :
        (endpoint : G.Endpoint) → Bound endpoint b → ensure_stack G net b ≡ (ok tt, b)
    unfolding ensure_stack
    ensure-Bound endpoint h = ap (stack_at G net b) h.0

    pub ensure_bind : Unbound b → ensure_stack G net b ≡ bind_stack G b net.bind
    unfolding ensure_stack
    ensure_bind h = ap (stack_at G net b) h.0

    pub announce_backend :
        (name : Option Text) (endpoint : Option G.Endpoint)
        → (announce G net b name endpoint).backend ≡ b
    unfolding announce
    announce_backend none endpoint = refl
    announce_backend (some name) none = refl
    announce_backend (some name) (some endpoint) = elim (Result-cases net.broadcast) [
      | inl (u, e) ↦ rw (announce, e) refl
      | inr (m, e) ↦ rw (announce, e) refl
    ]

  module _ (net : Network G) (topic : G.TopicId) (ids : List G.EndpointId)
      (name : Option Text) where
    joined-Bound :
        (b : Backend G) (endpoint : G.Endpoint) (answer : Result G.GossipSender Text)
        → Bound endpoint b
        → Bound endpoint (joined G net b topic ids name answer).backend
    joined-Bound b endpoint (err e) h = h
    joined-Bound b endpoint (ok sender) h =
        subst (Bound endpoint)
          (sym (announce_backend net (record b { sender = some sender }) name b.endpoint)) h

    pub join-Bound :
        (b : Backend G) (endpoint : G.Endpoint)
        → Bound endpoint b
        → join_internal G net b topic ids name
          ≡ some (joined G net b topic ids name net.subscribe_and_join)
    unfolding join_internal
    join-Bound b endpoint h = ap (join_over G net b topic ids name) h.1

    join-Safe :
        (b : Backend G) (endpoint : G.Endpoint)
        → Bound endpoint b
        → Safe b (join_internal G net b topic ids name)
    join-Safe b endpoint h = (
      joined G net b topic ids name net.subscribe_and_join,
      join-Bound b endpoint h,
      inl (endpoint, joined-Bound b endpoint net.subscribe_and_join h),
      λ e k. joined-Bound b e net.subscribe_and_join k,
    )

  -- Whatever the stack was, it is one behind `ensure_stack`, the same one when there was one, and the topic that
  -- is pending stays.
  pub ensured :
      (net : Network G) (b : Backend G)
      → Stacked b
      → ((endpoint : G.Endpoint) × (b' : Backend G) × (ensure_stack G net b ≡ (ok tt, b'))
          × Bound endpoint b'
          × (b'.pending_topic ≡ b.pending_topic)
          × ((e : G.Endpoint) → Bound e b → Bound e b'))
        ⊎ ((e : ChatError) × (ensure_stack G net b ≡ (err e, b)) × Unbound b)
  ensured net b (inl (endpoint, h)) =
      inl (endpoint, b, ensure-Bound net b endpoint h, h, refl, λ e k. k)
  ensured net b (inr h) = elim (Result-cases net.bind) [
    | inr (m, e) ↦ inr (endpoint_bind m, ensure_bind net b h ∙ ap (bind_stack G b) e, h)
    | inl (endpoint, e) ↦ inl (
      endpoint,
      (bind_stack G b (ok endpoint)).1,
      ensure_bind net b h ∙ ap (bind_stack G b) e,
      (refl, refl, refl),
      refl,
      λ e k. absurd (ground (arith, k.0, h.0)),
    )
  ]

  begin-Safe :
      (net : Network G) (b : Backend G) → Stacked b → Safe b (begin_open_room_by_gossip G net b)
  unfolding begin_open_room_by_gossip
  begin-Safe net b h = elim (ensured net b h) [
    | inr (m, e, u) ↦ (_, ap (begin_over G net) e, inr u, λ endpoint k. k)
    | inl (endpoint, b', e, bound, pending, keeps) ↦
        (_, ap (begin_over G net) e ∙ ap (opened G net b') bound.0, inl (endpoint, bound), keeps)
  ]

  finish-Safe :
      (net : Network G) (b : Backend G) (name : Option Text)
      → Stacked b
      → Safe b (finish_open_join_pending_by_gossip G net b name)
  unfolding finish_open_join_pending_by_gossip
  finish-Safe net b name h = elim (Option-cases b.pending_topic) [
    | inl e ↦ (_, ap (finish_pending G net b name) e, h, λ endpoint k. k)
    | inr (topic, e) ↦ elim h [
      | inr u ↦ absurd (ground (arith, e, u.4))
      | inl (endpoint, bound) ↦
          let (r, joins, stack, keeps) =
            join-Safe net topic [] name (record b { pending_topic = none }) endpoint bound in
          (r, ap (finish_pending G net b name) e ∙ joins, stack, keeps)
    ]
  ]

  join-room-Safe :
      (net : Network G) (b : Backend G) (text : Text) (name : Option Text)
      → Stacked b
      → Safe b (join_room_by_gossip G net b text name)
  unfolding join_room_by_gossip
  join-room-Safe net b text name h = elim (Result-cases (ticket_from_str G text)) [
    | inr (m, t) ↦ (_, ap (join_ticket G net b name) t, h, λ endpoint k. k)
    | inl (ticket, t) ↦ elim (ensured net b h) [
      | inr (m, e, u) ↦ (
        _,
        ap (join_ticket G net b name) t ∙ ap (join_stacked G net ticket name) e,
        inr u,
        λ endpoint k. k,
      )
      | inl (endpoint, b', e, bound, pending, keeps) ↦
          let (r, joins, stack, kept) =
            join-Safe net ticket.topic (ids_of G ticket.endpoints) name b' endpoint bound in
          (
            r,
            ap (join_ticket G net b name) t ∙ ap (join_stacked G net ticket name) e ∙ joins,
            stack,
            λ e' k. kept e' (keeps e' k),
          )
    ]
  ]

  -- The calls of the backend that change it.
  pub data Call : Type 0 where
    begin_open : Call
    finish_open : Option Text → Call
    join_room : Text → Option Text → Call

  abbrev left_by : {A : Type 0} → Option (Run G A) → Option (Backend G)
  left_by none = none
  left_by (some r) = some r.backend

  abbrev pub call : Network G → Call → Backend G → Option (Backend G)
  call net begin_open b = left_by (begin_open_room_by_gossip G net b)
  call net (finish_open name) b = left_by (finish_open_join_pending_by_gossip G net b name)
  call net (join_room text name) b = left_by (join_room_by_gossip G net b text name)

  abbrev then_calls : (Backend G → Option (Backend G)) → Option (Backend G) → Option (Backend G)
  then_calls later none = none
  then_calls later (some b) = later b

  -- One call after the other, each with what the network answers; `none` is a panic.
  abbrev pub calls : List (Network G × Call) → Backend G → Option (Backend G)
  calls [] b = some b
  calls (c ∷ cs) b = then_calls (calls cs) (call c.0 c.1 b)

  abbrev Left : Backend G → Option (Backend G) → Type 0
  Left b o =
      (b' : Backend G) × (o ≡ some b')
      × Stacked b'
      × ((endpoint : G.Endpoint) → Bound endpoint b → Bound endpoint b')

  Safe-Left : {A : Type 0} (b : Backend G) (o : Option (Run G A)) → Safe b o → Left b (left_by o)
  Safe-Left b o (r, e, stack, keeps) = (r.backend, ap left_by e, stack, keeps)

  call-Left : (net : Network G) (c : Call) (b : Backend G) → Stacked b → Left b (call net c b)
  call-Left net begin_open b h = Safe-Left b _ (begin-Safe net b h)
  call-Left net (finish_open name) b h = Safe-Left b _ (finish-Safe net b name h)
  call-Left net (join_room text name) b h = Safe-Left b _ (join-room-Safe net b text name h)

  -- Whatever the network answers, no sequence of openings and joinings panics on a backend that
  -- has the whole stack of an endpoint, or nothing of it as a new one: it leaves such a backend,
  -- and an endpoint that was bound stays.
  pub calls-Stacked :
      (cs : List (Network G × Call)) (b : Backend G)
      → Stacked b
      → (b' : Backend G) × (calls cs b ≡ some b')
        × Stacked b'
        × ((endpoint : G.Endpoint) → Bound endpoint b → Bound endpoint b')
  calls-Stacked [] b h = (b, refl, h, λ endpoint k. k)
  calls-Stacked ((net, c) ∷ cs) b h =
      let (b', e, stack, keeps) = call-Left net c b h in
      let (b'', rest, stack', kept) = calls-Stacked cs b' stack in
      (
        b'',
        ap (then_calls (calls cs)) e ∙ rest,
        stack',
        λ endpoint k. kept endpoint (keeps endpoint k),
      )
