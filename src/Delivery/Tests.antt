-- ===== src/Delivery/Tests.antt =====
-- A publish and the report of a failed read, over the sample crates.
use guyos.Prelude.{◌≡◌, refl, true, none, some, ok, err, [], ◌∷◌, ◌++◌, length, arith, inr}
use guyos.Text.{Bytes, Text, lit}
use guyos.Text.Word.{u64_to_be_bytes}
use guyos.Text.Utf8.{is_utf8, lead, scan, advance}
use guyos.Crates.Sample.{sample, sample_uuid}
use guyos.Crates.Sample.Base64.{sample_crypto}
use guyos.Ticket.{encode_reference_v1}
use guyos.Attach.{Attach, GuyosWireAttachPolicy}
use guyos.Attach.Handshake.{ack_for}
use guyos.Ledger.{RoomPublishState, default_state}
use guyos.Ledger.Room.{room_ledger, room_laws}
use guyos.Ledger.History.{RoomIds, Refines-initial}
use guyos.Hub.Admission.{Issued, hub_verifier}
use guyos.Hub.Publishing.{publish_outcome}
use guyos.Framing.{invalid_utf8}
use guyos.Session.{FakeGuyosWireV1Session, paired, write_application_frame, after_drop}
use guyos.Wire.{Publish, attach_ack, GuyosWireV1Message, attach, publish}
use guyos.Wire.Encode.{
  encode_to_value_with_limits, encode_guyos_wire_v1_json, encode_guyos_wire_v1_json_within_limits,
  encode_attach, encode_publish, encode_error, error_object, put_details_opt,
}
use guyos.Hub.{
  awaiting_attach, reply, wire_error_json_body_for_session_read_failure,
  hub_try_send_wire_error_for_session_read_failure,
}
use guyos.Delivery.{Receives}
use guyos.Delivery.Messages.{Writes-Receives}
use guyos.Delivery.Hosting.{Serves, hosts}
use guyos.Delivery.Failures.{report, hub_try_send-Receives}

abbrev greeting : Publish sample
greeting = record { client_message_id = 7 ∷ []; text = b'h' ∷ b'i' ∷ [] }

abbrev hello : GuyosWireV1Message sample
hello = publish greeting

abbrev hello_json : Text
hello_json =
    (0 ∷ 4 ∷ lit "text")
    ++ ((2 ∷ b'h' ∷ b'i' ∷ [])
        ++ ((0 ∷ 17 ∷ lit "client_message_id")
            ++ ((1 ∷ 7 ∷ []) ++ ((0 ∷ 4 ∷ lit "type") ++ (7 ∷ lit "publish")))))

hello_encoded : encode_guyos_wire_v1_json_within_limits sample hello 100 16 ≡ ok hello_json
unfolding encode_guyos_wire_v1_json_within_limits lit encode_to_value_with_limits encode_publish
hello_encoded = refl

greeting_encoded : encode_guyos_wire_v1_json_within_limits sample hello 1000 16 ≡ ok hello_json
unfolding encode_guyos_wire_v1_json_within_limits lit encode_to_value_with_limits encode_publish
greeting_encoded = refl

hello_valid : is_utf8 hello_json ≡ true
unfolding is_utf8 scan advance lead lit
hello_valid = refl

Writes-Receives_example :
    Receives sample
      (after_drop (write_application_frame paired.0 hello_json).1 paired.1)
      (hello ∷ [])
unfolding paired write_application_frame lit
Writes-Receives_example =
    Writes-Receives sample paired.0 (write_application_frame paired.0 hello_json).1 paired.1 100 16
      (hello ∷ []) (hello_json ∷ []) refl refl refl ((tt, tt), tt)
      (hello_json, [], refl, hello_encoded, refl) (hello_valid, tt) (refl, refl)

abbrev code : Text
code = lit "malformed_json"

abbrev message : Text
message = lit "F1 frame payload is not valid UTF-8."

abbrev inner : Text
inner =
    (0 ∷ 7 ∷ lit "message")
    ++ (length message ∷ (message ++ ((0 ∷ 4 ∷ lit "code") ++ (length code ∷ code))))

abbrev body : Text
body =
    (1 ∷ 5 ∷ lit "error") ++ (length inner ∷ (inner ++ ((0 ∷ 4 ∷ lit "type") ++ (5 ∷ lit "error"))))

body_encoded : wire_error_json_body_for_session_read_failure sample invalid_utf8 ≡ some body
unfolding wire_error_json_body_for_session_read_failure encode_guyos_wire_v1_json
    encode_guyos_wire_v1_json_within_limits encode_to_value_with_limits encode_error error_object
    put_details_opt lit
body_encoded = refl

body_valid : is_utf8 body ≡ true
unfolding is_utf8 scan advance lead lit
body_valid = refl

hub_try_send-Receives_example :
    Receives sample
      (after_drop
        (hub_try_send_wire_error_for_session_read_failure sample paired.0 invalid_utf8)
        paired.1)
      (report sample code message ∷ [])
unfolding paired write_application_frame lit
hub_try_send-Receives_example =
    hub_try_send-Receives sample paired.0 paired.1 invalid_utf8 code message body refl body_encoded
      body_valid refl refl refl refl

abbrev key : Bytes
key = 5 ∷ []

abbrev room : Bytes
room = 1 ∷ 2 ∷ 3 ∷ 4 ∷ 5 ∷ 6 ∷ 7 ∷ 8 ∷ 9 ∷ 10 ∷ 11 ∷ 12 ∷ 13 ∷ 14 ∷ 15 ∷ 255 ∷ []

-- A client with a ticket for the room, at the second of its expiry.
abbrev client : Attach
client = record {
  protocol_major = 1;
  protocol_minor = 3;
  ticket = encode_reference_v1 sample_crypto key room 1_700_000_000;
}

abbrev policy : GuyosWireAttachPolicy
policy = record {
  max_frame_bytes = 1_048_576;
  max_message_bytes = 16;
  keepalive_interval_seconds = none;
  supported_major = 1;
  hub_minor_ceiling_for_supported_major = 4;
}

client_Issued : Issued sample sample_crypto key 1_700_000_000 client.ticket room
client_Issued =
    (room, 1_700_000_000, refl, ground arith, omega arith, refl, refl, inr (omega arith))

abbrev attach_json : Text
attach_json = elim (encode_guyos_wire_v1_json_within_limits sample (attach client) 1000 16) [
  | ok s ↦ s
  | err e ↦ []
]

attach_encoded :
    encode_guyos_wire_v1_json_within_limits sample (attach client) 1000 16 ≡ ok attach_json
unfolding encode_guyos_wire_v1_json_within_limits lit encode_to_value_with_limits encode_attach
    encode_reference_v1 u64_to_be_bytes
attach_encoded = refl

attach_valid : is_utf8 attach_json ≡ true
unfolding is_utf8 scan advance lead lit encode_guyos_wire_v1_json_within_limits
    encode_to_value_with_limits encode_attach encode_reference_v1 u64_to_be_bytes
attach_valid = refl

-- The client writes its attach and one publish to a hub that has heard nothing yet.
abbrev client_session : FakeGuyosWireV1Session
client_session =
    (write_application_frame (write_application_frame paired.0 attach_json).1 hello_json).1

abbrev empty : RoomPublishState sample_uuid
empty = default_state sample_uuid

abbrev nothing_yet : RoomIds sample_uuid
nothing_yet r = []

hosts_example :
    Serves sample
      (room_ledger sample_uuid)
      policy
      (hub_verifier sample sample_crypto key 1_700_000_000)
      (after_drop client_session paired.1)
      awaiting_attach
      empty
      (reply (attach_ack (ack_for client policy room)) ∷ publish_outcome sample [] greeting ∷ [])
unfolding paired write_application_frame lit encode_guyos_wire_v1_json_within_limits
    encode_to_value_with_limits encode_attach encode_reference_v1 u64_to_be_bytes
hosts_example =
    hosts sample sample_crypto (room_ledger sample_uuid) (room_laws sample_uuid) policy key
      1_700_000_000 paired.0 client_session paired.1 1000 client room (greeting ∷ [])
      (attach_json ∷ hello_json ∷ []) empty nothing_yet refl refl refl
      (
        attach_json,
        hello_json ∷ [],
        refl,
        attach_encoded,
        (hello_json, [], refl, greeting_encoded, refl),
      )
      (attach_valid, (hello_valid, tt)) (refl, (refl, refl)) (omega arith) (omega arith) refl
      client_Issued (Refines-initial sample_uuid (room_ledger sample_uuid) (room_laws sample_uuid))
      (omega arith)
