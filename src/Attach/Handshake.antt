-- ===== src/Attach/Handshake.antt =====
-- The handshake decides in the order preamble, major, ticket.
use guyos.Prelude.{◌≤◌, ◌<◌, ◌≡◌, ◌≢◌, ◌⊎◌, sym, ap, ◌∙◌, ◌↔◌, ok, err, arith, min}
use guyos.Text.{Text}
use guyos.Attach.{
  u31_max, Attach, AttachAck, GuyosWireAttachPolicy, AttachTicketVerifier, AttachHandshakeError,
  invalid_attach, protocol_major_unsupported, ticket_error, accept_attach,
}
use guyos.Ticket.{ReferenceTicketError}

-- The hub's answer when every check passes.
abbrev pub ack_for : Attach → GuyosWireAttachPolicy → Text → AttachAck
ack_for a p room = record {
  room_id = room;
  max_frame_bytes = p.max_frame_bytes;
  max_message_bytes = p.max_message_bytes;
  protocol_major = a.protocol_major;
  server_protocol_minor = min a.protocol_minor p.hub_minor_ceiling_for_supported_major;
  keepalive_interval_seconds = p.keepalive_interval_seconds;
}

module _ (a : Attach) (p : GuyosWireAttachPolicy) (verify : AttachTicketVerifier) where
  -- A version above 31 bits is an invalid attach, whatever the policy and the ticket say.
  pub accept_preamble :
      (u31_max < a.protocol_major) ⊎ (u31_max < a.protocol_minor)
      → accept_attach a p verify ≡ err invalid_attach
  unfolding accept_attach
  accept_preamble h = ground arith

  -- With versions of 31 bits an unsupported major is refused before the ticket is looked at.
  pub accept_unsupported :
      a.protocol_major ≤ u31_max
      → a.protocol_minor ≤ u31_max
      → a.protocol_major ≢ p.supported_major
      → accept_attach a p verify ≡ err protocol_major_unsupported
  unfolding accept_attach
  accept_unsupported h k n = ground arith

  module _ (h : a.protocol_major ≤ u31_max) (k : a.protocol_minor ≤ u31_max)
      (m : a.protocol_major ≡ p.supported_major) where
    pub accept_ok :
        (room : Text) → verify a.ticket ≡ ok room → accept_attach a p verify ≡ ok (ack_for a p room)
    unfolding accept_attach
    accept_ok room e = ground arith

    pub accept_bad_ticket :
        (t : ReferenceTicketError)
        → verify a.ticket ≡ err t
        → accept_attach a p verify ≡ err (ticket_error t)
    unfolding accept_attach
    accept_bad_ticket t e = ground arith

  -- An acknowledgement tells the whole story: the versions have 31 bits, the major is the supported
  -- one, the ticket was verified for the room, the limits are the policy's, and the minor is the
  -- smaller of the client's and the hub's ceiling.
  pub accept_sound :
      (ack : AttachAck)
      → accept_attach a p verify ≡ ok ack
      → (a.protocol_major ≤ u31_max)
        × (a.protocol_minor ≤ u31_max)
        × (a.protocol_major ≡ p.supported_major)
        × (verify a.ticket ≡ ok ack.room_id)
        × (ack ≡ ack_for a p ack.room_id)
  unfolding accept_attach
  accept_sound ack h = ground arith

  -- When the handshake fails with this error.
  abbrev pub Refuses : AttachHandshakeError → Type 0
  Refuses invalid_attach = (u31_max < a.protocol_major) ⊎ (u31_max < a.protocol_minor)
  Refuses protocol_major_unsupported =
      (a.protocol_major ≤ u31_max)
      × (a.protocol_minor ≤ u31_max)
      × (a.protocol_major ≢ p.supported_major)
  Refuses (ticket_error t) =
      (a.protocol_major ≤ u31_max)
      × (a.protocol_minor ≤ u31_max)
      × (a.protocol_major ≡ p.supported_major)
      × (verify a.ticket ≡ err t)

  refusal : (e : AttachHandshakeError) → accept_attach a p verify ≡ err e → Refuses e
  unfolding accept_attach
  refusal invalid_attach h = ground arith
  refusal protocol_major_unsupported h = ground arith
  refusal (ticket_error t) h = ground arith

  -- The handshake fails with an error exactly when its check is the first one that fails:
  -- versions of 31 bits, then the major, then the ticket.
  pub accept_err_iff : (e : AttachHandshakeError) → (accept_attach a p verify ≡ err e) ↔ Refuses e
  accept_err_iff invalid_attach = (refusal invalid_attach, accept_preamble)
  accept_err_iff protocol_major_unsupported =
      (refusal protocol_major_unsupported, λ c. accept_unsupported c.0 c.1 c.2)
  accept_err_iff (ticket_error t) =
      (refusal (ticket_error t), λ c. accept_bad_ticket c.0 c.1 c.2 t c.3)

  -- The hub acknowledges an attach exactly when its versions have 31 bits, its major is the
  -- supported one and its ticket is verified, and then with the verified room, the limits of the
  -- policy, and the smaller of the client's minor and the hub's ceiling.
  pub accept_iff :
      (ack : AttachAck)
      → (accept_attach a p verify ≡ ok ack) ↔ (
          (a.protocol_major ≤ u31_max)
          × (a.protocol_minor ≤ u31_max)
          × (a.protocol_major ≡ p.supported_major)
          × (verify a.ticket ≡ ok ack.room_id)
          × (ack ≡ ack_for a p ack.room_id))
  accept_iff ack = (accept_sound ack, λ c. accept_ok c.0 c.1 c.2 ack.room_id c.3 ∙ ap ok (sym c.4))
