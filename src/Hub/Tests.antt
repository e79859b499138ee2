-- ===== src/Hub/Tests.antt =====
-- A hub with one policy, two streams and a few messages.
use guyos.Prelude.{◌≤◌, ◌≡◌, ◌⊎◌, ◌↔◌, refl, none, some, ok, err, List, [], ◌∷◌, arith, length}
use guyos.Text.{Text, text_eq}
use guyos.Crates.Sample.{sample, sample_uuid}
use guyos.Crates.Sample.Base64.{sample_crypto}
use guyos.Attach.{u31_max, accept_attach, Attach, GuyosWireAttachPolicy, AttachTicketVerifier}
use guyos.Ticket.{invalid_ticket, encode_reference_v1}
use guyos.Ledger.{default_state, RoomPublishState}
use guyos.Ledger.Room.{room_ledger, room_laws}
use guyos.Ledger.History.{index_of, RoomIds, Refines, Refines-initial, after}
use guyos.Wire.{attach, Publish, publish, keepalive, detach}
use guyos.Hub.{GuyosWireSession, awaiting_attach, attached, handle_client_message, no_reply}
use guyos.Hub.Phase.{Step, handles, start, next, Admitted, steps_Admitted, steps_attached}
use guyos.Hub.Admission.{Issued, Admits, admits_iff}
use guyos.Hub.Publishing.{published, publish_outcome, handle_publish, publish_or_Quiet, Quiet}
use guyos.Hub.Expected.{Inbound, Outcomes, chats, Orderly, posted, expected, chat_of}
use guyos.Hub.FanOut.{serve, fan_out}

abbrev policy : GuyosWireAttachPolicy
policy = record {
  max_frame_bytes = 1_048_576;
  max_message_bytes = 16;
  keepalive_interval_seconds = none;
  supported_major = 1;
  hub_minor_ceiling_for_supported_major = 0;
}

abbrev verify : AttachTicketVerifier
verify [] = err invalid_ticket
verify (b ∷ s) = ok (b ∷ s)

abbrev empty : RoomPublishState sample_uuid
empty = default_state sample_uuid

abbrev lobby : Text
lobby = 1 ∷ []

abbrev in_lobby : GuyosWireSession
in_lobby = attached lobby 1_048_576 16

abbrev client : Attach
client = record { protocol_major = 1; protocol_minor = 0; ticket = lobby }

abbrev hello : Publish sample
hello = record { client_message_id = 7 ∷ []; text = b'h' ∷ b'i' ∷ [] }

joined :
    Step sample (room_ledger sample_uuid) policy verify (awaiting_attach, empty) (in_lobby, empty)
unfolding handle_client_message accept_attach
joined = handles awaiting_attach in_lobby empty empty (attach client) _ refl

-- A keepalive before the attach, and the attach.
steps_Admitted_example : Admitted sample (room_ledger sample_uuid) policy verify in_lobby
unfolding handle_client_message
steps_Admitted_example =
    steps_Admitted sample (room_ledger sample_uuid) policy verify empty (in_lobby, empty)
      (next _ _ _
        (next _ _ _ (start _)
          (handles awaiting_attach awaiting_attach empty empty keepalive no_reply refl))
        joined)

-- A second attach, and a detach.
steps_attached_example : in_lobby ≡ attached lobby 1_048_576 16
unfolding handle_client_message
steps_attached_example =
    steps_attached sample (room_ledger sample_uuid) policy verify lobby 1_048_576 16 empty
      (in_lobby, empty)
      (next _ _ _
        (next _ _ _ (start _) (handles in_lobby in_lobby empty empty (attach client) _ refl))
        (handles in_lobby in_lobby empty empty detach no_reply refl))

-- A ticket for one room under the key 5, at the second of its expiry.
abbrev ticket : Text
ticket =
    encode_reference_v1 sample_crypto (5 ∷ [])
      (1 ∷ 2 ∷ 3 ∷ 4 ∷ 5 ∷ 6 ∷ 7 ∷ 8 ∷ 9 ∷ 10 ∷ 11 ∷ 12 ∷ 13 ∷ 14 ∷ 15 ∷ 255 ∷ []) 1_700_000_000

abbrev ticket_room : Text
ticket_room = 1 ∷ 2 ∷ 3 ∷ 4 ∷ 5 ∷ 6 ∷ 7 ∷ 8 ∷ 9 ∷ 10 ∷ 11 ∷ 12 ∷ 13 ∷ 14 ∷ 15 ∷ 255 ∷ []

abbrev ticket_holder : Attach
ticket_holder = record { protocol_major = 1; protocol_minor = 3; ticket = ticket }

admits_iff_example :
    Admits sample sample_crypto
      (5 ∷ [])
      1_700_000_000
      (room_ledger sample_uuid)
      policy
      ticket_holder
      ticket_room
      empty
    ↔ ((1 ≤ u31_max)
        × (3 ≤ u31_max)
        × (ticket_holder.protocol_major ≡ policy.supported_major)
        × Issued sample sample_crypto (5 ∷ []) 1_700_000_000 ticket ticket_room)
admits_iff_example =
    admits_iff sample sample_crypto (5 ∷ []) 1_700_000_000 (room_ledger sample_uuid) policy
      ticket_holder ticket_room empty

abbrev nothing_yet : RoomIds sample_uuid
nothing_yet r = []

handle_publish_example :
    (s' : RoomPublishState sample_uuid) × (handle_client_message sample
        (room_ledger sample_uuid)
        in_lobby
        (publish hello)
        policy
        verify
        empty
      ≡ some ((in_lobby, publish_outcome sample [] hello), s'))
    × Refines sample_uuid
        (room_ledger sample_uuid)
        (room_laws sample_uuid)
        s'
        (after sample_uuid nothing_yet (lobby, 7 ∷ []))
handle_publish_example =
    handle_publish sample (room_ledger sample_uuid) policy verify (room_laws sample_uuid) lobby
      1_048_576 16 hello empty nothing_yet
      (Refines-initial sample_uuid (room_ledger sample_uuid) (room_laws sample_uuid)) (omega arith)
      (omega arith)

publish_or_Quiet_example :
    ((p : Publish sample) × (publish hello ≡ publish p)
      × (length p.text ≤ 16)
      × (published sample 16 (publish hello) ≡ some p))
    ⊎ ((published sample 16 (publish hello) ≡ none)
        × Quiet sample (room_ledger sample_uuid) policy verify in_lobby (publish hello) empty)
publish_or_Quiet_example =
    publish_or_Quiet sample (room_ledger sample_uuid) policy verify lobby 1_048_576 16
      (publish hello) empty

-- The same publish twice, on two streams, with a keepalive between them.
abbrev inbound : List (Inbound sample)
inbound =
    record { room_id = lobby; max_frame_bytes = 100; max_message_bytes = 16; msg = publish hello }
    ∷ record { room_id = lobby; max_frame_bytes = 100; max_message_bytes = 16; msg = keepalive }
    ∷ record { room_id = lobby; max_frame_bytes = 99; max_message_bytes = 15; msg = publish hello }
    ∷ []

fan_out_example :
    (outs : Outcomes sample) × ((s : RoomPublishState sample_uuid) × (serve sample
          (room_ledger sample_uuid)
          policy
          verify
          empty
          inbound
        ≡ some (outs, s)))
    × ((r : Text)
        → (chats sample r outs ≡ expected sample [] (posted sample r inbound))
          × Orderly sample [] (chats sample r outs))
fan_out_example =
    fan_out sample (room_ledger sample_uuid) policy verify (room_laws sample_uuid) inbound
      (omega arith)

-- One chat, for the first of the two publishes.
expected_in_lobby : expected sample [] (posted sample lobby inbound) ≡ chat_of sample hello 0 ∷ []
unfolding expected index_of text_eq
expected_in_lobby = refl
