-- ===== src/Hub/Phase.antt =====
-- One stream of the hub as a state machine: the attach phase of `handle_client_message`.
use guyos.Prelude.{ℕ, ◌≡◌, ◌⊎◌, refl, sym, ap, ◌∙◌, some, ok, arith, inl, inr, Result-cases, subst}
use guyos.Text.{Text}
use guyos.Crates.{Crates}
use guyos.Attach.{GuyosWireAttachPolicy, AttachTicketVerifier, Attach, AttachAck, accept_attach}
use guyos.Attach.Handshake.{accept_sound}
use guyos.Ledger.{RoomPublishLedger}
use guyos.Wire.{
  GuyosWireV1Message, attach, attach_ack, publish, publish_ack, chat_message, detach, keepalive,
  error,
}
use guyos.Hub.{
  GuyosWireSession, awaiting_attach, attached, GuyosWireInboundOutcome, handle_client_message,
}

module _ (X : Crates) (T : RoomPublishLedger X.uuid) (policy : GuyosWireAttachPolicy)
    (verifier : AttachTicketVerifier) where
  -- A stream's phase and the ledger that it shares.
  abbrev pub Hub : Type 0
  Hub = GuyosWireSession × T.State

  pub data Step : Hub → Hub → Type 0 where
    handles :
        (s s' : GuyosWireSession) (l l' : T.State) (msg : GuyosWireV1Message X)
        (out : GuyosWireInboundOutcome X)
        → handle_client_message X T s msg policy verifier l ≡ some ((s', out), l')
        → Step (s, l) (s', l')

  pub data Steps : Hub → Hub → Type 0 where
    start : (h : Hub) → Steps h h
    next : (h h1 h2 : Hub) → Steps h h1 → Step h1 h2 → Steps h h2

  -- Where an admitted stream comes from: a ticket that was verified for its room, and the policy's limits.
  abbrev pub Admitted : GuyosWireSession → Type 0
  Admitted awaiting_attach = Unit
  Admitted (attached room frame message) =
      ((t : Text) × (verifier t ≡ ok room))
      × (frame ≡ policy.max_frame_bytes)
      × (message ≡ policy.max_message_bytes)

  handle_attached :
      (room : Text) (frame message : ℕ) (s' : GuyosWireSession) (l l' : T.State)
      (msg : GuyosWireV1Message X) (out : GuyosWireInboundOutcome X)
      → handle_client_message X T (attached room frame message) msg policy verifier l
        ≡ some ((s', out), l')
      → s' ≡ attached room frame message
  unfolding handle_client_message
  handle_attached room frame message s' l l' (attach a) out h = ground arith
  handle_attached room frame message s' l l' (attach_ack a) out h = ground arith
  handle_attached room frame message s' l l' (publish a) out h = ground arith
  handle_attached room frame message s' l l' (publish_ack a) out h = ground arith
  handle_attached room frame message s' l l' (chat_message a) out h = ground arith
  handle_attached room frame message s' l l' detach out h = ground arith
  handle_attached room frame message s' l l' keepalive out h = ground arith
  handle_attached room frame message s' l l' (error a) out h = ground arith

  handle_awaiting :
      (s' : GuyosWireSession) (l l' : T.State) (msg : GuyosWireV1Message X)
      (out : GuyosWireInboundOutcome X)
      → handle_client_message X T awaiting_attach msg policy verifier l ≡ some ((s', out), l')
      → (l' ≡ l)
        × ((s' ≡ awaiting_attach)
            ⊎ ((a : Attach) × (ack : AttachAck) × (accept_attach a policy verifier ≡ ok ack)
                × (s' ≡ attached ack.room_id ack.max_frame_bytes ack.max_message_bytes)))
  unfolding handle_client_message
  handle_awaiting s' l l' (attach a) out h = elim (Result-cases (accept_attach a policy verifier)) [
    | inl (ack, e) ↦ (ground arith, inr (a, ack, e, ground arith))
    | inr (x, e) ↦ (ground arith, inl (ground arith))
  ]
  handle_awaiting s' l l' (attach_ack a) out h = ground arith
  handle_awaiting s' l l' (publish a) out h = ground arith
  handle_awaiting s' l l' (publish_ack a) out h = ground arith
  handle_awaiting s' l l' (chat_message a) out h = ground arith
  handle_awaiting s' l l' detach out h = ground arith
  handle_awaiting s' l l' keepalive out h = ground arith
  handle_awaiting s' l l' (error a) out h = ground arith

  step_Admitted : (h h' : Hub) → Step h h' → Admitted h.0 → Admitted h'.0
  step_Admitted h h' (handles awaiting_attach s' l l' msg out e) good =
      elim (handle_awaiting s' l l' msg out e).1 [
        | inl w ↦ subst (λ x. Admitted x) (sym w) tt
        | inr (a, ack, ok_ack, w) ↦
            let (major, minor, supported, ticket, ack_eq) =
              accept_sound a policy verifier ack ok_ack in
            subst (λ x. Admitted x) (sym w)
              (
                (a.ticket, ticket),
                ap (λ (k : AttachAck). k.max_frame_bytes) ack_eq,
                ap (λ (k : AttachAck). k.max_message_bytes) ack_eq,
              )
      ]
  step_Admitted h h' (handles (attached room frame message) s' l l' msg out e) good =
      subst (λ x. Admitted x) (sym (handle_attached room frame message s' l l' msg out e)) good

  -- However a stream went since it was opened, it is in a room only by a ticket that the verifier
  -- gave that room for, and its limits are those of the policy.
  pub steps_Admitted : (l : T.State) (h : Hub) → Steps (awaiting_attach, l) h → Admitted h.0
  steps_Admitted l h steps = reached (awaiting_attach, l) h steps tt
    where
      reached : (h h' : Hub) → Steps h h' → Admitted h.0 → Admitted h'.0
      reached h h' (start k) good = good
      reached h h' (next k h1 k' before step) good =
          step_Admitted h1 k' step (reached k h1 before good)

  -- Once a stream is attached, no message moves it to another room, changes its limits or ends
  -- its attachment, not even a detach.
  pub steps_attached :
      (room : Text) (frame message : ℕ) (l : T.State) (h : Hub)
      → Steps (attached room frame message, l) h
      → h.0 ≡ attached room frame message
  steps_attached room frame message l h steps = kept (attached room frame message, l) h steps refl
    where
      kept_step :
          (h h' : Hub)
          → Step h h'
          → h.0 ≡ attached room frame message
          → h'.0 ≡ attached room frame message
      kept_step h h' (handles s s' l l' msg out e) w =
          handle_attached room frame message s' l l' msg out (rw w at e)

      kept :
          (h h' : Hub)
          → Steps h h'
          → h.0 ≡ attached room frame message
          → h'.0 ≡ attached room frame message
      kept h h' (start k) w = w
      kept h h' (next k h1 k' before step) w = kept_step h1 k' step (kept k h1 before w)

  -- A stream that was opened and still awaits its attach has not changed the ledger, whatever it
  -- sent.
  pub steps_awaiting :
      (l : T.State) (h : Hub) → Steps (awaiting_attach, l) h → h.0 ≡ awaiting_attach → h.1 ≡ l
  steps_awaiting l h steps w = untouched (awaiting_attach, l) h steps w
    where
      back :
          (h h' : Hub) → Step h h' → h'.0 ≡ awaiting_attach → (h.0 ≡ awaiting_attach) × (h'.1 ≡ h.1)
      back h h' (handles awaiting_attach s' l l' msg out e) w =
          (refl, (handle_awaiting s' l l' msg out e).0)
      back h h' (handles (attached room frame message) s' l l' msg out e) w =
          absurd (ground (arith, handle_attached room frame message s' l l' msg out e))

      untouched : (h h' : Hub) → Steps h h' → h'.0 ≡ awaiting_attach → h'.1 ≡ h.1
      untouched h h' (start k) w = refl
      untouched h h' (next k h1 k' before step) w =
          let (w1, same) = back h1 k' step w in same ∙ untouched k h1 before w1
