-- ===== src/Hub/Publishing.antt =====
-- What an attached stream's messages do, over any ledger that keeps its promises.
use guyos.Prelude.{
  leb, if◌then◌else◌, Option, none, ℕ, ◌≤◌, ◌<◌, ◌≡◌, refl, some, List, ◌∷◌, ltb, arith, length,
  inl, inr, Bool-cases, ◌⊎◌,
}
use guyos.Text.{Text}
use guyos.Crates.{Crates}
use guyos.Attach.{GuyosWireAttachPolicy, AttachTicketVerifier}
use guyos.Ledger.{RoomPublishLedger, PublishDecision, u64_max}
use guyos.Ledger.Laws.{LedgerLaws}
use guyos.Ledger.History.{RoomIds, Refines, decision, after, step}
use guyos.Wire.{
  Publish, WireChatMessage, GuyosWireV1Message, attach, attach_ack, publish, publish_ack,
  chat_message, detach, keepalive, error,
}
use guyos.Hub.{
  GuyosWireSession, attached, GuyosWireInboundOutcome, reply, publish_handled, decided_seq,
  publisher_ack, observer_chat, outbound_message_too_large, dispatch_publish_for_room,
  handle_client_message,
}

module _ (X : Crates) where
  -- The answer to a publish for a room that has accepted `ids`.
  abbrev pub publish_outcome : List X.Uuid → Publish X → GuyosWireInboundOutcome X
  publish_outcome ids p =
      let d = decision X.uuid ids p.client_message_id in
      publish_handled (publisher_ack X p (decided_seq d)) (observer_chat X p d)

  -- The chat that observers get, put before those that follow.
  abbrev pub put_chat :
      GuyosWireInboundOutcome X → List (WireChatMessage X) → List (WireChatMessage X)
  put_chat (publish_handled ack (some c)) cs = c ∷ cs
  put_chat out cs = cs

  -- The publish that a message is, if its text is within the limit.
  abbrev pub published : ℕ → GuyosWireV1Message X → Option (Publish X)
  published limit (publish p) = if leb (length p.text) limit then some p else none
  published limit msg = none

module _ (X : Crates) (T : RoomPublishLedger X.uuid) (policy : GuyosWireAttachPolicy)
    (verifier : AttachTicketVerifier) where
  -- A text above the limit of the stream is refused with its size and the limit, and the ledger does not
  -- change.
  pub handle_oversize :
      (room : Text) (frame limit : ℕ) (p : Publish X) (s : T.State)
      → limit < length p.text
      → handle_client_message X T (attached room frame limit) (publish p) policy verifier s
        ≡ some (
          (attached room frame limit, reply (outbound_message_too_large X (length p.text) limit)),
          s,
        )
  unfolding handle_client_message dispatch_publish_for_room
  handle_oversize room frame limit p s h = ground arith

  handle_decided :
      (room : Text) (frame limit : ℕ) (p : Publish X) (s s' : T.State) (d : PublishDecision)
      → length p.text ≤ limit
      → T.accept_or_replay s room p.client_message_id ≡ some (d, s')
      → handle_client_message X T (attached room frame limit) (publish p) policy verifier s
        ≡ some (
          (
            attached room frame limit,
            publish_handled (publisher_ack X p (decided_seq d)) (observer_chat X p d),
          ),
          s',
        )
  unfolding handle_client_message dispatch_publish_for_room
  handle_decided room frame limit p s s' d h e = ground arith

  -- What changes neither the ledger nor what the observers see.
  abbrev pub Quiet : GuyosWireSession → GuyosWireV1Message X → T.State → Type 0
  Quiet session msg s =
      (out : GuyosWireInboundOutcome X) × (handle_client_message X T session msg policy verifier s
        ≡ some ((session, out), s))
      × ((cs : List (WireChatMessage X)) → put_chat X out cs ≡ cs)

  -- A message on an attached stream is a publish within the limit of the stream, or it is none
  -- and is handled with the ledger and the session unchanged and nothing for the observers.
  pub publish_or_Quiet :
      (room : Text) (frame limit : ℕ) (msg : GuyosWireV1Message X) (s : T.State)
      → ((p : Publish X) × (msg ≡ publish p)
          × (length p.text ≤ limit)
          × (published X limit msg ≡ some p))
        ⊎ ((published X limit msg ≡ none) × Quiet (attached room frame limit) msg s)
  unfolding handle_client_message
  publish_or_Quiet room frame limit (publish p) s = elim (Bool-cases (ltb limit (length p.text))) [
    | inl e ↦
        inr (ground arith, (_, handle_oversize room frame limit p s (ground arith), λ cs. refl))
    | inr e ↦ inl (p, refl, ground arith, ground arith)
  ]
  publish_or_Quiet room frame limit (attach a) s = inr (refl, (_, refl, λ cs. refl))
  publish_or_Quiet room frame limit (attach_ack a) s = inr (refl, (_, refl, λ cs. refl))
  publish_or_Quiet room frame limit (publish_ack a) s = inr (refl, (_, refl, λ cs. refl))
  publish_or_Quiet room frame limit (chat_message a) s = inr (refl, (_, refl, λ cs. refl))
  publish_or_Quiet room frame limit detach s = inr (refl, (_, refl, λ cs. refl))
  publish_or_Quiet room frame limit keepalive s = inr (refl, (_, refl, λ cs. refl))
  publish_or_Quiet room frame limit (error a) s = inr (refl, (_, refl, λ cs. refl))

  module _ (L : LedgerLaws X.uuid T) where
    -- A publish within the limit of an attached stream, whose room has a number left, over a
    -- ledger in step with the ids that each room has accepted: a new id gets the next number of
    -- the room and goes to the observers, a known one gets its number again and goes to nobody,
    -- and the ledger stays in step.
    pub handle_publish :
        (room : Text) (frame limit : ℕ) (p : Publish X) (s : T.State) (ids : RoomIds X.uuid)
        → Refines X.uuid T L s ids
        → length p.text ≤ limit
        → length (ids room) < u64_max
        → (s' : T.State) × (handle_client_message X T
              (attached room frame limit)
              (publish p)
              policy
              verifier
              s
            ≡ some ((attached room frame limit, publish_outcome X (ids room) p), s'))
          × Refines X.uuid T L s' (after X.uuid ids (room, p.client_message_id))
    handle_publish room frame limit p s ids ref fits room_left =
        let (s', call, ref') = step X.uuid T L s ids room p.client_message_id ref room_left in
        (s', handle_decided room frame limit p s s' _ fits call, ref')
