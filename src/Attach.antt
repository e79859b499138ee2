-- ===== src/Attach.antt =====
-- guyos_core/src/domain/guyos_wire_attach.rs.
pub mod Fields
pub mod Handshake
mod Tests
use guyos.Prelude.{
  ℕ, ◌^◌, ◌-◌, ◌≡◌, Bool, ◌||◌, Option, none, some, Result, ok, err, ◌>>=◌, ◌>>◌, fail_if, ok_or,
  map_err, ltb, ◌==◌, if◌then◌else◌, min,
}
use guyos.Text.{Text, lit}
use guyos.Crates.Json.{JsonTypes, JsonValue, Value, number, string}
use guyos.Ticket.{ReferenceTicketError, ticket_decode_failed, invalid_ticket, portable_code}

abbrev pub u31_max : ℕ
u31_max = 2_147_483_647

pub record Attach : Type 0 where
  pub protocol_major : ℕ
  pub protocol_minor : ℕ
  pub ticket : Text

pub record AttachAck : Type 0 where
  pub room_id : Text
  pub max_frame_bytes : ℕ
  pub max_message_bytes : ℕ
  pub protocol_major : ℕ
  pub server_protocol_minor : ℕ
  pub keepalive_interval_seconds : Option ℕ

pub record GuyosWireAttachPolicy : Type 0 where
  pub max_frame_bytes : ℕ
  pub max_message_bytes : ℕ
  pub keepalive_interval_seconds : Option ℕ
  pub supported_major : ℕ
  pub hub_minor_ceiling_for_supported_major : ℕ

unfoldable pub single_major : ℕ → ℕ → ℕ → ℕ → Option ℕ → GuyosWireAttachPolicy
single_major supported_major hub_minor_ceiling max_frame max_message keepalive = record {
  max_frame_bytes = max_frame;
  max_message_bytes = max_message;
  keepalive_interval_seconds = keepalive;
  supported_major = supported_major;
  hub_minor_ceiling_for_supported_major = hub_minor_ceiling;
}

unfoldable pub hub_protocol_minor_ceiling : GuyosWireAttachPolicy → ℕ → Option ℕ
hub_protocol_minor_ceiling p major =
    if major == p.supported_major then some p.hub_minor_ceiling_for_supported_major else none

-- `dyn AttachTicketVerifier`.
abbrev pub AttachTicketVerifier : Type 0
AttachTicketVerifier = Text → Result Text ReferenceTicketError

-- `Err(())` of the source is `err tt`.
unfoldable pub validate_attach_preamble : Attach → Result (Unit {0}) (Unit {0})
validate_attach_preamble a =
    fail_if (ltb u31_max a.protocol_major || ltb u31_max a.protocol_minor) tt

module _ (J : JsonTypes) where
  -- A `u64` of the crate's number that fits `u32` and `u31_max`.
  unfoldable pub attach_u31_of : Option (JsonValue J) → Result ℕ (Unit {0})
  attach_u31_of (some (number n)) = do
    v ← ok_or tt (J.as_u64 n)
    fail_if (ltb (2 ^ 32 - 1) v) tt
    fail_if (ltb u31_max v) tt
    ok v
  attach_u31_of _ = err tt

  unfoldable pub require_attach_u31 : J.Map → Text → Result ℕ (Unit {0})
  unfolding attach_u31_of
  require_attach_u31 map key = attach_u31_of (J.get map key)

  unfoldable pub attach_string_of : Option (JsonValue J) → Result Text (Unit {0})
  attach_string_of (some (string s)) = ok s
  attach_string_of _ = err tt

  unfoldable pub require_attach_string : J.Map → Text → Result Text (Unit {0})
  unfolding attach_string_of
  require_attach_string map key = attach_string_of (J.get map key)

  unfoldable pub attach_from_decoded_map : J.Map → Result Attach (Unit {0})
  unfolding require_attach_u31 require_attach_string validate_attach_preamble
  attach_from_decoded_map map = do
    major ← require_attach_u31 map (lit "protocol_major")
    minor ← require_attach_u31 map (lit "protocol_minor")
    ticket ← require_attach_string map (lit "ticket")
    let attach : Attach = record { protocol_major = major; protocol_minor = minor; ticket = ticket }
    validate_attach_preamble attach
    ok attach

pub data AttachHandshakeError : Type 0 where
  invalid_attach protocol_major_unsupported : AttachHandshakeError
  ticket_error : ReferenceTicketError → AttachHandshakeError

unfoldable pub accept_attach :
    Attach → GuyosWireAttachPolicy → AttachTicketVerifier → Result AttachAck AttachHandshakeError
unfolding validate_attach_preamble hub_protocol_minor_ceiling
accept_attach attach policy verifier = do
  map_err (λ _. invalid_attach) (validate_attach_preamble attach)
  h ← ok_or protocol_major_unsupported (hub_protocol_minor_ceiling policy attach.protocol_major)
  room ← map_err ticket_error (verifier attach.ticket)
  let server_minor = min attach.protocol_minor h
  ok (record {
    room_id = room;
    max_frame_bytes = policy.max_frame_bytes;
    max_message_bytes = policy.max_message_bytes;
    protocol_major = attach.protocol_major;
    server_protocol_minor = server_minor;
    keepalive_interval_seconds = policy.keepalive_interval_seconds;
  })

unfoldable pub error_message_protocol_major_unsupported : Text
error_message_protocol_major_unsupported = lit "Protocol major is not supported by this hub."

unfoldable pub error_message_invalid_attach : Text
error_message_invalid_attach = lit "Attach payload failed semantic validation."

unfoldable pub error_message_invalid_attach_duplicate : Text
error_message_invalid_attach_duplicate =
    lit "A second attach is not allowed after attach_ack on this stream."

unfoldable pub error_message_ticket_decode_failed : Text
error_message_ticket_decode_failed = lit "Ticket could not be decoded."

unfoldable pub error_message_invalid_ticket : Text
error_message_invalid_ticket = lit "Ticket validation failed."

unfoldable pub error_message_attach_required : Text
error_message_attach_required = lit "A successful attach is required before this message."

unfoldable pub map_ticket_err : ReferenceTicketError → Text
map_ticket_err ticket_decode_failed = error_message_ticket_decode_failed
map_ticket_err invalid_ticket = error_message_invalid_ticket

unfoldable pub attach_handshake_portable : AttachHandshakeError → Text × Text
unfolding map_ticket_err portable_code
attach_handshake_portable invalid_attach = (lit "invalid_attach", error_message_invalid_attach)
attach_handshake_portable protocol_major_unsupported =
    (lit "protocol_major_unsupported", error_message_protocol_major_unsupported)
attach_handshake_portable (ticket_error e) = (portable_code e, map_ticket_err e)
