-- ===== src/Hub/Expected.antt =====
-- What the observers of a room are to get of the publishes that reach it.
use guyos.Prelude.{
  sym, ℕ, ◌≡◌, refl, true, false, none, some, List, [], ◌∷◌, ◌++◌, if◌then◌else◌, arith, length,
  inl, inr, Bool-cases, Option-cases,
}
use guyos.Text.{Text, text_eq, text_eq_iff}
use guyos.Crates.{Crates}
use guyos.Ledger.History.{RoomIds, index_of, remember, decision_new, decision_known, after}
use guyos.Wire.{Publish, WireChatMessage, GuyosWireV1Message}
use guyos.Hub.{GuyosWireSession, attached, GuyosWireInboundOutcome}
use guyos.Hub.Publishing.{published, publish_outcome, put_chat}

-- A message on a stream that is attached to a room, with the stream's limits.
pub record Inbound (X : Crates) : Type 0 where
  pub room_id : Text
  pub max_frame_bytes : ℕ
  pub max_message_bytes : ℕ
  pub msg : GuyosWireV1Message X

abbrev pub session_of : (X : Crates) → Inbound X → GuyosWireSession
session_of X m = attached m.room_id m.max_frame_bytes m.max_message_bytes

module _ (X : Crates) where
  abbrev pub Outcomes : Type 0
  Outcomes = List (Text × GuyosWireInboundOutcome X)

  -- The chats that the observers of room `r` get, in order.
  abbrev pub chats : Text → Outcomes → List (WireChatMessage X)
  chats r [] = []
  chats r ((q, out) ∷ outs) =
      let rest = chats r outs in if text_eq q r then put_chat X out rest else rest

  -- Each chat has the next number of a room that has accepted `ids`, and an id that is new to it.
  abbrev pub Orderly : List X.Uuid → List (WireChatMessage X) → Type 0
  Orderly ids [] = Unit
  Orderly ids (c ∷ cs) =
      (c.seq ≡ length ids)
      × (index_of X.uuid ids c.client_message_id ≡ none)
      × Orderly (ids ++ c.client_message_id ∷ []) cs

  -- The publishes for room `r` within the limits of their streams, in the order in which the hub takes
  -- them.
  abbrev pub posted : Text → List (Inbound X) → List (Publish X)
  posted r [] = []
  posted r (m ∷ ms) =
      let rest = posted r ms in
      elim (published X m.max_message_bytes m.msg) [
        | none ↦ rest
        | some p ↦ if text_eq m.room_id r then p ∷ rest else rest
      ]

  -- The chat of a publish that is given this number.
  abbrev pub chat_of : Publish X → ℕ → WireChatMessage X
  chat_of p seq = record {
    seq = seq;
    client_message_id = p.client_message_id;
    text = p.text;
    sender_endpoint_id = none;
    server_timestamp = none;
  }

  -- A room that has accepted `ids` passes on the first publish of each new id, under the next number.
  unfoldable pub expected : List X.Uuid → List (Publish X) → List (WireChatMessage X)
  expected ids [] = []
  expected ids (p ∷ ps) = elim (index_of X.uuid ids p.client_message_id) [
    | none ↦ chat_of p (length ids) ∷ expected (ids ++ p.client_message_id ∷ []) ps
    | some k ↦ expected ids ps
  ]

  remember_new :
      (ids : List X.Uuid) (u : X.Uuid)
      → index_of X.uuid ids u ≡ none
      → remember X.uuid ids true u ≡ ids ++ u ∷ []
  unfolding remember
  remember_new ids u e = ground arith

  remember_known :
      (ids : List X.Uuid) (u : X.Uuid) (k : ℕ)
      → index_of X.uuid ids u ≡ some k
      → remember X.uuid ids true u ≡ ids
  unfolding remember
  remember_known ids u k e = ground arith

  remember_other : (ids : List X.Uuid) (u : X.Uuid) → remember X.uuid ids false u ≡ ids
  unfolding remember
  remember_other ids u = refl

  expected_new :
      (ids : List X.Uuid) (p : Publish X) (ps : List (Publish X))
      → index_of X.uuid ids p.client_message_id ≡ none
      → expected ids (p ∷ ps)
        ≡ chat_of p (length ids) ∷ expected (ids ++ p.client_message_id ∷ []) ps
  unfolding expected
  expected_new ids p ps e = ground arith

  expected_known :
      (ids : List X.Uuid) (p : Publish X) (ps : List (Publish X)) (k : ℕ)
      → index_of X.uuid ids p.client_message_id ≡ some k
      → expected ids (p ∷ ps) ≡ expected ids ps
  unfolding expected
  expected_known ids p ps k e = ground arith

  -- The expected chats are numbered on from the room's count, and no id comes twice.
  pub expected-Orderly : (ids : List X.Uuid) (ps : List (Publish X)) → Orderly ids (expected ids ps)
  expected-Orderly ids [] = unfold expected in tt
  expected-Orderly ids (p ∷ ps) = elim (Option-cases (index_of X.uuid ids p.client_message_id)) [
    | inl e ↦
        rw (expected_new ids p ps e)
          (refl, e, expected-Orderly (ids ++ p.client_message_id ∷ []) ps)
    | inr (k, e) ↦ rw (expected_known ids p ps k e) (expected-Orderly ids ps)
  ]

  -- The outcome of a publish puts the expected chat in front.
  expected-publish :
      (ids : List X.Uuid) (p : Publish X) (ps : List (Publish X))
      → put_chat X
          (publish_outcome X ids p)
          (expected (remember X.uuid ids true p.client_message_id) ps)
        ≡ expected ids (p ∷ ps)
  expected-publish ids p ps = elim (Option-cases (index_of X.uuid ids p.client_message_id)) [
    | inl e ↦
        rw (decision_new X.uuid ids p.client_message_id e, remember_new ids p.client_message_id e)
          (sym (expected_new ids p ps e))
    | inr (k, e) ↦
        rw
          (
            decision_known X.uuid ids p.client_message_id k e,
            remember_known ids p.client_message_id k e,
          )
          (sym (expected_known ids p ps k e))
  ]

  posted_here :
      (m : Inbound X) (ms : List (Inbound X)) (p : Publish X) (r : Text)
      → published X m.max_message_bytes m.msg ≡ some p
      → posted r (m ∷ ms) ≡ (if text_eq m.room_id r then p ∷ posted r ms else posted r ms)
  posted_here m ms p r e = rw (posted, e) refl

  pub posted_not :
      (m : Inbound X) (ms : List (Inbound X)) (r : Text)
      → published X m.max_message_bytes m.msg ≡ none
      → posted r (m ∷ ms) ≡ posted r ms
  posted_not m ms r e = rw (posted, e) refl

  pub chats-publish :
      (ids : RoomIds X.uuid) (m : Inbound X) (ms : List (Inbound X)) (p : Publish X) (r : Text)
      (outs : Outcomes)
      → published X m.max_message_bytes m.msg ≡ some p
      → chats r outs ≡ expected (after X.uuid ids (m.room_id, p.client_message_id) r) (posted r ms)
      → chats r ((m.room_id, publish_outcome X (ids m.room_id) p) ∷ outs)
        ≡ expected (ids r) (posted r (m ∷ ms))
  chats-publish ids m ms p r outs pub_eq rest = elim (Bool-cases (text_eq m.room_id r)) [
    | inl e ↦
        let same : m.room_id ≡ r = (text_eq_iff m.room_id r).0 e in
        let tail : chats r outs
            ≡ expected (remember X.uuid (ids r) true p.client_message_id) (posted r ms) =
          rw e at rest in
        rw (posted_here m ms p r pub_eq, e, same, tail) (expected-publish (ids r) p (posted r ms))
    | inr e ↦
        let tail : chats r outs
            ≡ expected (remember X.uuid (ids r) false p.client_message_id) (posted r ms) =
          rw e at rest in
        rw (posted_here m ms p r pub_eq, e, tail, remember_other (ids r) p.client_message_id) refl
  ]

  pub Quiet-cons :
      (q r : Text) (out : GuyosWireInboundOutcome X) (outs : Outcomes)
      → ((cs : List (WireChatMessage X)) → put_chat X out cs ≡ cs)
      → chats r outs ≡ chats r ((q, out) ∷ outs)
  Quiet-cons q r out outs quiet = ground (arith, quiet (chats r outs))
