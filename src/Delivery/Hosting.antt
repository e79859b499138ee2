-- ===== src/Delivery/Hosting.antt =====
-- A whole stream of the hub: what a client has written is read, decoded and handled, from the attach
-- to the end of the stream.
use guyos.Prelude.{
  ℕ, ◌+◌, ◌≤◌, ◌≡◌, refl, sym, subst, true, none, some, ok, List, [], ◌∷◌, All, arith, length,
}
use guyos.Text.{Bytes, Text, text_eq}
use guyos.Text.Utf8.{is_utf8}
use guyos.Crates.{Crates}
use guyos.Crates.Crypto.{CryptoCrates}
use guyos.Session.{FakeGuyosWireV1Session, ready, read_application_frame, after_drop}
use guyos.Session.Pair.{Writes}
use guyos.Attach.{u31_max, Attach, GuyosWireAttachPolicy, AttachTicketVerifier}
use guyos.Attach.Handshake.{ack_for}
use guyos.Ledger.{RoomPublishLedger, u64_max}
use guyos.Ledger.Laws.{LedgerLaws}
use guyos.Ledger.History.{RoomIds, Refines, after, length-remember}
use guyos.Wire.{GuyosWireV1Message, Publish, attach, attach_ack, publish}
use guyos.Wire.Decode.{decode_guyos_wire_v1_json}
use guyos.Wire.Json.{encode_json-Within}
use guyos.Hub.{
  GuyosWireSession, awaiting_attach, attached, GuyosWireInboundOutcome, reply,
  handle_client_message,
}
use guyos.Hub.Admission.{hub_verifier, Issued, admits_iff}
use guyos.Hub.Publishing.{publish_outcome, handle_publish}
use guyos.Delivery.{Encodes, Receives}
use guyos.Delivery.Messages.{IsSound, Writes-Receives}

module _ (X : Crates) where
  abbrev pub publishes : List (Publish X) → List (GuyosWireV1Message X)
  publishes [] = []
  publishes (p ∷ ps) = publish p ∷ publishes ps

  -- The answers to the publishes of a stream in this room, after the ids that the rooms have accepted.
  abbrev pub publish_outcomes :
      Text → RoomIds X.uuid → List (Publish X) → List (GuyosWireInboundOutcome X)
  publish_outcomes room ids [] = []
  publish_outcomes room ids (p ∷ ps) =
      publish_outcome X (ids room) p
      ∷ publish_outcomes room (after X.uuid ids (room, p.client_message_id)) ps

  publishes-IsSound : (ps : List (Publish X)) → All (IsSound X) (publishes ps)
  publishes-IsSound [] = tt
  publishes-IsSound (p ∷ ps) = ((tt, tt), publishes-IsSound ps)

  -- The encoder has kept every text within its limit.
  encoded-Fits :
      (max_frame max_message : ℕ) (ps : List (Publish X)) (texts : List Text)
      → Encodes X max_frame max_message (publishes ps) texts
      → All (λ (p : Publish X). length p.text ≤ max_message) ps
  encoded-Fits max_frame max_message [] texts e = tt
  encoded-Fits max_frame max_message (p ∷ ps) texts (s, more, whole, encoded, later) = (
    (encode_json-Within X (publish p) max_frame max_message s encoded).1,
    encoded-Fits max_frame max_message ps more later,
  )

module _ (X : Crates) (T : RoomPublishLedger X.uuid) (policy : GuyosWireAttachPolicy)
    (verifier : AttachTicketVerifier) where
  -- The messages are handled in turn with these outcomes.
  abbrev pub Handles :
      GuyosWireSession
      → T.State
      → List (GuyosWireV1Message X)
      → List (GuyosWireInboundOutcome X)
      → Type 0
  Handles phase l [] outs = outs ≡ []
  Handles phase l (msg ∷ msgs) outs =
      (out : GuyosWireInboundOutcome X) × (more : List (GuyosWireInboundOutcome X))
      × (phase' : GuyosWireSession) × (l' : T.State) × (outs ≡ out ∷ more)
      × (handle_client_message X T phase msg policy verifier l ≡ some ((phase', out), l'))
      × Handles phase' l' msgs more

  -- The reads of `s` return texts of messages that the hub handles in turn with these outcomes, and
  -- then the end of the stream.
  abbrev pub Serves :
      FakeGuyosWireV1Session
      → GuyosWireSession
      → T.State
      → List (GuyosWireInboundOutcome X)
      → Type 0
  Serves s phase l [] = (read_application_frame s).0 ≡ ready (ok none)
  Serves s phase l (out ∷ outs) =
      (text : Text) × (msg : GuyosWireV1Message X) × (phase' : GuyosWireSession) × (l' : T.State)
      × ((read_application_frame s).0 ≡ ready (ok (some text)))
      × (decode_guyos_wire_v1_json X text ≡ ok msg)
      × (handle_client_message X T phase msg policy verifier l ≡ some ((phase', out), l'))
      × Serves (read_application_frame s).1 phase' l' outs

  Receives-Serves :
      (s : FakeGuyosWireV1Session) (phase : GuyosWireSession) (l : T.State)
      (msgs : List (GuyosWireV1Message X)) (outs : List (GuyosWireInboundOutcome X))
      → Receives X s msgs
      → Handles phase l msgs outs
      → Serves s phase l outs
  Receives-Serves s phase l [] outs done e = subst (λ o. Serves s phase l o) (sym e) done
  Receives-Serves s phase l (msg ∷ msgs) outs (text, answer, decoded, rest)
        (out, more, phase', l', e, handled, later) =
      subst (λ o. Serves s phase l o) (sym e)
        (
          text,
          msg,
          phase',
          l',
          answer,
          decoded,
          handled,
          Receives-Serves (read_application_frame s).1 phase' l' msgs more rest later,
        )

  module _ (L : LedgerLaws X.uuid T) where
    publishes-Handles :
        (room : Text) (frame limit : ℕ) (ps : List (Publish X)) (l : T.State) (ids : RoomIds X.uuid)
        → Refines X.uuid T L l ids
        → All (λ (p : Publish X). length p.text ≤ limit) ps
        → length (ids room) + length ps ≤ u64_max
        → Handles (attached room frame limit) l (publishes X ps) (publish_outcomes X room ids ps)
    publishes-Handles room frame limit [] l ids ref fits left = refl
    publishes-Handles room frame limit (p ∷ ps) l ids ref (fit, fits) left =
        let (l', handled, ref') =
          handle_publish X T policy verifier L room frame limit p l ids ref fit (omega arith) in
        (
          _,
          _,
          _,
          l',
          refl,
          handled,
          publishes-Handles room frame limit ps l' _ ref' fits (
              omega
                (arith, length-remember X.uuid (ids room) (text_eq room room) p.client_message_id)),
        )

module _ (X : Crates) (C : CryptoCrates) (T : RoomPublishLedger X.uuid) (L : LedgerLaws X.uuid T)
    (policy : GuyosWireAttachPolicy) (k_mac : Bytes) (now : ℕ) where
  -- One end of a session, which had sent nothing, has written the encoded texts of an attach and
  -- of any publishes, each write with success, and is gone. The hub at the other end, with the
  -- same frame limit and nothing buffered, that decodes tickets under its key, reads and decodes
  -- each text and handles it without a panic: the attach puts the stream in the room of the
  -- ticket and is acknowledged, each publish is answered by what the room has accepted before it,
  -- and then the stream ends. The texts are UTF-8 and were encoded with the text limit of the
  -- policy, the versions have 31 bits and the supported major, the ticket was issued under that
  -- key for that room and has not expired, the ledger is in step with the ids that the rooms have
  -- accepted, and the room has a number left for each publish.
  pub hosts :
      (client client' hub : FakeGuyosWireV1Session) (max_frame : ℕ) (a : Attach) (room_id : Text)
      (ps : List (Publish X)) (texts : List Text) (l : T.State) (ids : RoomIds X.uuid)
      → client.tx.queue ≡ []
      → hub.decoder.buf ≡ []
      → hub.decoder.max_frame_bytes ≡ client.max_frame_bytes
      → Encodes X max_frame policy.max_message_bytes (attach a ∷ publishes X ps) texts
      → All (λ t. is_utf8 t ≡ true) texts
      → Writes client texts client'
      → a.protocol_major ≤ u31_max
      → a.protocol_minor ≤ u31_max
      → a.protocol_major ≡ policy.supported_major
      → Issued X C k_mac now a.ticket room_id
      → Refines X.uuid T L l ids
      → length (ids room_id) + length ps ≤ u64_max
      → Serves X T policy
          (hub_verifier X C k_mac now)
          (after_drop client' hub)
          awaiting_attach
          l
          (reply (attach_ack (ack_for a policy room_id)) ∷ publish_outcomes X room_id ids ps)
  hosts client client' hub max_frame a room_id ps texts l ids fresh empty same encoded valid written
        major minor supported issued ref left =
      let (s, more, whole, first, later) = encoded in
      Receives-Serves X T policy (hub_verifier X C k_mac now) (after_drop client' hub)
        awaiting_attach l (attach a ∷ publishes X ps) _
        (Writes-Receives X client client' hub max_frame policy.max_message_bytes
          (attach a ∷ publishes X ps) texts fresh empty same ((tt, tt), publishes-IsSound X ps)
          encoded valid written)
        (
          _,
          _,
          _,
          l,
          refl,
          (admits_iff X C k_mac now T policy a room_id l).1 (major, minor, supported, issued),
          publishes-Handles X T policy (hub_verifier X C k_mac now) L room_id policy.max_frame_bytes
              policy.max_message_bytes ps l ids ref
              (encoded-Fits X max_frame policy.max_message_bytes ps more later) left,
        )
