-- ===== src/Attach/Tests.antt =====
-- The handshake on one hub and two clients.
use guyos.Prelude.{◌≤◌, ◌≡◌, ◌↔◌, ok, err, [], ◌∷◌, some}
use guyos.Ticket.{invalid_ticket}
use guyos.Attach.{
  u31_max, Attach, GuyosWireAttachPolicy, AttachTicketVerifier, ticket_error, accept_attach,
}
use guyos.Attach.Handshake.{ack_for, accept_iff, accept_err_iff, Refuses}

abbrev policy : GuyosWireAttachPolicy
policy = record {
  max_frame_bytes = 1_048_576;
  max_message_bytes = 65_536;
  keepalive_interval_seconds = some 30;
  supported_major = 1;
  hub_minor_ceiling_for_supported_major = 4;
}

-- Every ticket that is not empty is good, for the room that it names.
abbrev verify : AttachTicketVerifier
verify [] = err invalid_ticket
verify (b ∷ s) = ok (b ∷ s)

abbrev client : Attach
client = record { protocol_major = 1; protocol_minor = 9; ticket = 7 ∷ [] }

accept_iff_example : (accept_attach client policy verify ≡ ok (ack_for client policy (7 ∷ []))) ↔ (
    (1 ≤ u31_max)
    × (9 ≤ u31_max)
    × (client.protocol_major ≡ policy.supported_major)
    × (verify client.ticket ≡ ok (7 ∷ []))
    × (ack_for client policy (7 ∷ []) ≡ ack_for client policy (7 ∷ [])))
accept_iff_example = accept_iff client policy verify (ack_for client policy (7 ∷ []))

abbrev no_ticket : Attach
no_ticket = record { protocol_major = 1; protocol_minor = 9; ticket = [] }

accept_err_iff_example :
    (accept_attach no_ticket policy verify ≡ err (ticket_error invalid_ticket))
    ↔ Refuses no_ticket policy verify (ticket_error invalid_ticket)
accept_err_iff_example = accept_err_iff no_ticket policy verify (ticket_error invalid_ticket)
