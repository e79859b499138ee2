-- ===== src/Hub/FanOut.antt =====
-- Many attached streams over one ledger, their messages in any order: what the observers of a room get.
use guyos.Prelude.{
  sym, ap, ◌∙◌, ◌+◌, ◌≤◌, ◌≡◌, refl, Option, none, some, List, [], ◌∷◌, arith, length, inl, inr,
}
use guyos.Text.{Text, text_eq}
use guyos.Crates.{Crates}
use guyos.Attach.{GuyosWireAttachPolicy, AttachTicketVerifier}
use guyos.Ledger.{RoomPublishLedger, u64_max}
use guyos.Ledger.Laws.{LedgerLaws}
use guyos.Ledger.History.{RoomIds, Refines, Refines-initial, after, length-remember}
use guyos.Hub.{GuyosWireSession, GuyosWireInboundOutcome, handle_client_message}
use guyos.Hub.Publishing.{published, publish_outcome, Quiet, publish_or_Quiet, handle_publish}
use guyos.Hub.Expected.{
  Inbound, session_of, Outcomes, chats, Orderly, posted, expected, expected-Orderly, posted_not,
  chats-publish, Quiet-cons,
}

module _ (X : Crates) (T : RoomPublishLedger X.uuid) (policy : GuyosWireAttachPolicy)
    (verifier : AttachTicketVerifier) where
  -- The hub takes the messages one by one; `none` is a panic on the way.
  unfoldable pub serve : T.State → List (Inbound X) → Option (Outcomes X × T.State)
  serve s [] = some ([], s)
  serve s (m ∷ ms) = elim (handle_client_message X T (session_of X m) m.msg policy verifier s) [
    | none ↦ none
    | some ((session, out), s') ↦ elim (serve s' ms) [
      | none ↦ none
      | some (outs, s'') ↦ some ((m.room_id, out) ∷ outs, s'')
    ]
  ]

  serve_cons :
      (s s1 s2 : T.State) (m : Inbound X) (ms : List (Inbound X)) (session : GuyosWireSession)
      (out : GuyosWireInboundOutcome X) (outs : Outcomes X)
      → handle_client_message X T (session_of X m) m.msg policy verifier s
        ≡ some ((session, out), s1)
      → serve s1 ms ≡ some (outs, s2)
      → serve s (m ∷ ms) ≡ some ((m.room_id, out) ∷ outs, s2)
  unfolding serve
  serve_cons s s1 s2 m ms session out outs e f = ground arith

  module _ (L : LedgerLaws X.uuid T) where
    abbrev Served : T.State → List (Inbound X) → RoomIds X.uuid → Type 0
    Served s ms ids =
        (outs : Outcomes X) × ((s' : T.State) × (serve s ms ≡ some (outs, s')))
        × ((r : Text) → chats X r outs ≡ expected X (ids r) (posted X r ms))

    serve-Quiet :
        (s : T.State) (m : Inbound X) (ms : List (Inbound X)) (ids : RoomIds X.uuid)
        → published X m.max_message_bytes m.msg ≡ none
        → Quiet X T policy verifier (session_of X m) m.msg s
        → Served s ms ids
        → Served s (m ∷ ms) ids
    serve-Quiet s m ms ids silent (out, call, quiet) (outs, (s', rest), all) = (
      (m.room_id, out) ∷ outs,
      (s', serve_cons s s s' m ms _ out outs call rest),
      λ r.
          sym (Quiet-cons X m.room_id r out outs quiet)
          ∙ all r
          ∙ ap (expected X (ids r)) (sym (posted_not X m ms r silent)),
    )

    serve_from :
        (ms : List (Inbound X)) (s : T.State) (ids : RoomIds X.uuid)
        → Refines X.uuid T L s ids
        → ((r : Text) → length (ids r) + length ms ≤ u64_max)
        → Served s ms ids
    serve_from [] s ids ref left = ([], (s, unfold serve in refl), λ r. unfold expected in refl)
    serve_from (m ∷ ms) s ids ref left =
        elim (publish_or_Quiet X T policy verifier m.room_id m.max_frame_bytes m.max_message_bytes
          m.msg s) [
            | inr (silent, quiet) ↦
                serve-Quiet s m ms ids silent quiet
                  (serve_from ms s ids ref (λ r. omega (arith, left r)))
            | inl (p, is_publish, fits, pub_eq) ↦
                let (s1, call, ref1) =
                  handle_publish X T policy verifier L m.room_id m.max_frame_bytes
                    m.max_message_bytes p s ids ref fits (omega (arith, left m.room_id)) in
                let (outs, (s2, rest), all) =
                  serve_from ms s1 (after X.uuid ids (m.room_id, p.client_message_id)) ref1 (λ q.
                    omega (
                      arith,
                      left q,
                      length-remember X.uuid (ids q) (text_eq m.room_id q) p.client_message_id,
                    )) in
                (
                  (m.room_id, publish_outcome X (ids m.room_id) p) ∷ outs,
                  (
                    s2,
                    serve_cons s s1 s2 m ms (session_of X m) (publish_outcome X (ids m.room_id) p)
                        outs (rw is_publish call) rest,
                  ),
                  λ r. chats-publish X ids m ms p r outs pub_eq (all r),
                )
          ]

    -- Over any ledger that keeps its promises, from its initial state, up to 2^64 - 1 messages of
    -- attached streams, in any order, of any kinds and for any rooms, are all handled without a
    -- panic. The observers of each room get exactly the first publish of each id among those for
    -- the room that are within the limits of their streams, in the order in which the hub took
    -- them, with its own text, numbered 0, 1, 2 and so on, and no id twice.
    pub fan_out :
        (ms : List (Inbound X))
        → length ms ≤ u64_max
        → (outs : Outcomes X) × ((s : T.State) × (serve L.initial ms ≡ some (outs, s)))
          × ((r : Text)
              → (chats X r outs ≡ expected X [] (posted X r ms)) × Orderly X [] (chats X r outs))
    fan_out ms left =
        let (outs, ran, all) =
          serve_from ms L.initial (λ r. []) (Refines-initial X.uuid T L) (λ r. omega arith) in
        (outs, ran, λ r. (all r, rw all (expected-Orderly X [] (posted X r ms))))
