-- ===== src/Hub.antt =====
-- The hub's side of the wire: guyos_core/src/domain/guyos_wire_v1.rs from `outbound_wire_error` to
-- `handle_client_message`, and the error bodies for failed reads of
-- guyos_core/src/ports/outbound/guyos_wire_v1_session.rs.
pub mod Phase
pub mod Publishing
pub mod Expected
pub mod FanOut
pub mod Admission
mod Tests
use guyos.Prelude.{ℕ, ◌++◌, Option, none, some, Result, ok, err}
use guyos.Text.{Text, lit}
use guyos.Text.Decimal.{to_decimal}
use guyos.Crates.{Crates}
use guyos.Framing.{GuyosWireV1SessionError, frame_too_large, unexpected_eof, invalid_utf8, io}
use guyos.Session.{FakeGuyosWireV1Session, write_application_frame}
use guyos.Attach.{
  GuyosWireAttachPolicy, AttachTicketVerifier, accept_attach, attach_handshake_portable,
  error_message_attach_required, error_message_invalid_attach_duplicate,
}
use guyos.Ledger.{PublishDecision, first_acceptance, idempotent_replay, RoomPublishLedger}
use guyos.Wire.{
  Publish, PublishAck, WireChatMessage, GuyosWireV1Message, attach, attach_ack, publish, detach,
  keepalive, error, GuyosWireV1MessageError, malformed_json, unknown_message_type, invalid_attach,
  message_too_large, json_body_too_large, invalid_client_message_id, Decoded, validate_text_len,
}
use guyos.Wire.Encode.{encode_guyos_wire_v1_json}

pub data GuyosWireSession : Type 0 where
  awaiting_attach : GuyosWireSession
  attached : Text → ℕ → ℕ → GuyosWireSession

pub data GuyosWireInboundOutcome (X : Crates) : Type 0 where
  no_reply : GuyosWireInboundOutcome X
  reply : GuyosWireV1Message X → GuyosWireInboundOutcome X
  publish_handled : PublishAck X → Option (WireChatMessage X) → GuyosWireInboundOutcome X

-- `PublishDecision::FirstAcceptance { seq } | PublishDecision::IdempotentReplay { seq } => seq`
abbrev pub decided_seq : PublishDecision → ℕ
decided_seq (first_acceptance seq) = seq
decided_seq (idempotent_replay seq) = seq

module _ (X : Crates) where
  abbrev pub outbound_wire_error : Text → Text → GuyosWireV1Message X
  outbound_wire_error code message =
      error (record { code = code; message = message; details = none })

  unfoldable pub outbound_message_too_large : ℕ → ℕ → GuyosWireV1Message X
  outbound_message_too_large bytes limit = outbound_wire_error (lit "message_too_large") (
      lit "text is "
      ++ (to_decimal bytes ++ (lit " bytes (limit " ++ (to_decimal limit ++ lit ")"))))

  unfoldable pub outbound_error_from_message_error : GuyosWireV1MessageError → GuyosWireV1Message X
  unfolding outbound_message_too_large
  outbound_error_from_message_error malformed_json =
      outbound_wire_error (lit "malformed_json")
        (lit "Bytes are not valid UTF-8 or do not parse as a JSON object for this protocol.")
  outbound_error_from_message_error (unknown_message_type (some t)) =
      outbound_wire_error (lit "unknown_message_type")
        (lit "Unknown message type " ++ (X.debug_str t ++ lit "."))
  outbound_error_from_message_error (unknown_message_type none) =
      outbound_wire_error (lit "unknown_message_type") (lit "Missing or invalid `type` field.")
  outbound_error_from_message_error invalid_attach =
      outbound_wire_error (lit "invalid_attach") (lit "Attach payload failed semantic validation.")
  outbound_error_from_message_error (message_too_large bytes limit) =
      outbound_message_too_large bytes limit
  outbound_error_from_message_error (invalid_client_message_id raw) =
      outbound_wire_error (lit "invalid_client_message_id")
        (lit "client_message_id " ++ (X.debug_str raw ++ lit " is not a canonical UUID string."))
  outbound_error_from_message_error (json_body_too_large bytes limit) =
      outbound_wire_error (lit "malformed_json")
        (lit "Internal encode error: JSON body exceeds max_frame_bytes.")

  -- `Result::ok`
  abbrev pub ok_option : {A E : Type 0} → Result A E → Option A
  ok_option (ok a) = some a
  ok_option (err e) = none

  abbrev pub encoded : GuyosWireV1Message X → Option Text
  encoded envelope = ok_option (encode_guyos_wire_v1_json X envelope)

  unfoldable pub wire_error_json_body_for_session_read_failure :
      GuyosWireV1SessionError → Option Text
  wire_error_json_body_for_session_read_failure (frame_too_large declared limit) = encoded (
      outbound_wire_error (lit "frame_too_large") (
        lit "Declared F1 payload length "
        ++ (to_decimal declared
            ++ (lit " exceeds max_frame_bytes limit " ++ (to_decimal limit ++ lit ".")))))
  wire_error_json_body_for_session_read_failure invalid_utf8 =
      encoded
        (outbound_wire_error (lit "malformed_json") (lit "F1 frame payload is not valid UTF-8."))
  wire_error_json_body_for_session_read_failure unexpected_eof = none
  wire_error_json_body_for_session_read_failure (io e) = none

  -- The write's answer is dropped; a write that waits is left out.
  unfoldable pub hub_try_send_wire_error_for_session_read_failure :
      FakeGuyosWireV1Session → GuyosWireV1SessionError → FakeGuyosWireV1Session
  unfolding write_application_frame
  hub_try_send_wire_error_for_session_read_failure session e =
      elim (wire_error_json_body_for_session_read_failure e) [
        | none ↦ session
        | some body ↦ (write_application_frame session body).1
      ]

  abbrev pub publisher_ack : Publish X → ℕ → PublishAck X
  publisher_ack p seq = record {
    seq = seq;
    client_message_id = p.client_message_id;
    server_timestamp = none;
  }

  abbrev pub observer_chat : Publish X → PublishDecision → Option (WireChatMessage X)
  observer_chat p (first_acceptance seq) = some (record {
    seq = seq;
    client_message_id = p.client_message_id;
    text = p.text;
    sender_endpoint_id = none;
    server_timestamp = none;
  })
  observer_chat p (idempotent_replay seq) = none

  -- `Option` is the panic of the ledger.
  module _ (T : RoomPublishLedger X.uuid) where
    abbrev pub Handled : Type 0 → Type 0
    Handled A = Option (A × T.State)

    -- The rest of `dispatch_publish_for_room`, past the `if let`.
    unfoldable pub publish_in_room :
        Text → Publish X → T.State → Handled (GuyosWireInboundOutcome X)
    publish_in_room room_id p ledger =
        elim (T.accept_or_replay ledger room_id p.client_message_id) [
          | none ↦ none
          | some (decision, ledger') ↦ some (
            publish_handled (publisher_ack p (decided_seq decision)) (observer_chat p decision),
            ledger',
          )
        ]

    unfoldable pub dispatch_publish_for_room :
        Text → Publish X → ℕ → T.State → Handled (GuyosWireInboundOutcome X)
    unfolding validate_text_len publish_in_room
    dispatch_publish_for_room room_id p max_message_bytes ledger =
        elim (validate_text_len p.text max_message_bytes) [
          | err (message_too_large bytes limit) ↦
              some (reply (outbound_message_too_large bytes limit), ledger)
          | _ ↦ publish_in_room room_id p ledger
        ]

    unfoldable pub handle_client_message :
        GuyosWireSession
        → GuyosWireV1Message X
        → GuyosWireAttachPolicy
        → AttachTicketVerifier
        → T.State
        → Handled (GuyosWireSession × GuyosWireInboundOutcome X)
    handle_client_message awaiting_attach detach policy verifier ledger =
        some ((awaiting_attach, no_reply), ledger)
    handle_client_message awaiting_attach keepalive policy verifier ledger =
        some ((awaiting_attach, no_reply), ledger)
    handle_client_message awaiting_attach (attach a) policy verifier ledger =
        elim (accept_attach a policy verifier) [
          | ok ack ↦ some (
            (
              attached ack.room_id ack.max_frame_bytes ack.max_message_bytes,
              reply (attach_ack ack),
            ),
            ledger,
          )
          | err e ↦
              let (code, message) = attach_handshake_portable e in
              some ((awaiting_attach, reply (outbound_wire_error code message)), ledger)
        ]
    handle_client_message awaiting_attach msg policy verifier ledger = some (
      (
        awaiting_attach,
        reply (outbound_wire_error (lit "attach_required") error_message_attach_required),
      ),
      ledger,
    )
    handle_client_message (attached room frame message) (attach a) policy verifier ledger = some (
      (
        attached room frame message,
        reply (outbound_wire_error (lit "invalid_attach") error_message_invalid_attach_duplicate),
      ),
      ledger,
    )
    handle_client_message (attached room frame message) (publish p) policy verifier ledger =
        elim (dispatch_publish_for_room room p message ledger) [
          | none ↦ none
          | some (outcome, ledger') ↦ some ((attached room frame message, outcome), ledger')
        ]
    handle_client_message (attached room frame message) msg policy verifier ledger =
        some ((attached room frame message, no_reply), ledger)
