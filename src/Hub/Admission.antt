-- ===== src/Hub/Admission.antt =====
-- The hub's attach phase with the reference ticket as its verifier, as the interplay of
-- guyos_core/src/domain/guyos_wire_v1.rs and guyos_core/src/domain/reference_ticket_v1.rs.
use guyos.Prelude.{ℕ, ◌^◌, ◌<◌, ◌≤◌, ◌≡◌, ◌⊎◌, ◌↔◌, refl, ap, some, ok, arith, length, All}
use guyos.Text.{Bytes, Text, IsByte}
use guyos.Crates.{Crates}
use guyos.Crates.Crypto.{CryptoCrates}
use guyos.Ticket.{decode_reference_v1, encode_reference_v1}
use guyos.Ticket.RoundTrip.{decode-encode}
use guyos.Ticket.Sound.{decode_sound}
use guyos.Attach.{u31_max, GuyosWireAttachPolicy, AttachTicketVerifier, Attach, accept_attach}
use guyos.Attach.Handshake.{ack_for, accept_iff}
use guyos.Ledger.{RoomPublishLedger}
use guyos.Wire.{attach, attach_ack}
use guyos.Hub.{awaiting_attach, attached, reply, handle_client_message}

module _ (X : Crates) (C : CryptoCrates) (k_mac : Bytes) (now : ℕ) where
  abbrev pub hub_verifier : AttachTicketVerifier
  hub_verifier ticket = decode_reference_v1 C X.uuid ticket k_mac now

  -- A ticket that was issued under the hub's key for a room, and whose expiry is 0 or has not passed.
  abbrev pub Issued : Text → Text → Type 0
  Issued ticket room_id =
      (room : Bytes) × (expires_unix : ℕ) × (length room ≡ 16)
      × All IsByte room
      × (expires_unix < 2 ^ 64)
      × (ticket ≡ encode_reference_v1 C k_mac room expires_unix)
      × (room_id ≡ X.uuid_to_string (X.from_bytes room))
      × ((expires_unix ≡ 0) ⊎ (now ≤ expires_unix))

  verifies : (ticket room_id : Text) → Issued ticket room_id → hub_verifier ticket ≡ ok room_id
  verifies ticket room_id (room, expires_unix, len, bytes, u64, text, id, time) = ground (
    arith,
    ap hub_verifier text,
    decode-encode C X.uuid room expires_unix len bytes u64 k_mac now,
  )

  module _ (T : RoomPublishLedger X.uuid) (policy : GuyosWireAttachPolicy) (a : Attach)
      (room_id : Text) (l : T.State) where
    abbrev pub Admits : Type 0
    Admits =
        handle_client_message X T awaiting_attach (attach a) policy hub_verifier l
        ≡ some (
          (
            attached room_id policy.max_frame_bytes policy.max_message_bytes,
            reply (attach_ack (ack_for a policy room_id)),
          ),
          l,
        )

    admits : accept_attach a policy hub_verifier ≡ ok (ack_for a policy room_id) → Admits
    unfolding handle_client_message
    admits e = ground arith

    accepted : Admits → accept_attach a policy hub_verifier ≡ ok (ack_for a policy room_id)
    unfolding handle_client_message
    accepted h = ground arith

    -- With a verifier that decodes reference tickets under a key at a time, a stream that awaits
    -- its attach is put in a room by an attach, with the limits of the policy, the
    -- acknowledgement of the handshake and the ledger unchanged, exactly when the versions have
    -- 31 bits, the major is the supported one, and the ticket is the issuer's text under that key
    -- for 16 bytes that print as the room and for an expiry of 64 bits that is 0 or has not
    -- passed.
    pub admits_iff : Admits ↔ (
        (a.protocol_major ≤ u31_max)
        × (a.protocol_minor ≤ u31_max)
        × (a.protocol_major ≡ policy.supported_major)
        × Issued a.ticket room_id)
    admits_iff =
        let (to, from) = accept_iff a policy hub_verifier (ack_for a policy room_id) in
        (
          λ h.
              let (major, minor, supported, ticket, _) = to (accepted h) in
              (major, minor, supported, decode_sound C X.uuid a.ticket k_mac now room_id ticket),
          λ c. admits (from (c.0, c.1, c.2, verifies a.ticket room_id c.3, refl)),
        )
