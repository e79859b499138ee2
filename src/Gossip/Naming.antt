-- ===== src/Gossip/Naming.antt =====
-- The names under which a peer's messages are shown.
use mathlib.Core.Path.{ap₂}
use guyos.Prelude.{
  ◌≡◌, refl, sym, ap, ◌∙◌, Option, none, some, List, [], ◌∷◌, ◌++◌, Result, ok, err, if◌then◌else◌,
  arith, Option-cases, Result-cases, inl, inr,
}
use guyos.Text.{Bytes, Text, text_eq}
use guyos.HashMap
use guyos.Ledger.{text_key}
use guyos.Chat.{ChatMessage, Names, internal}
use guyos.Gossip.{
  MessageBody, about_me, message, Message, GossipCrates, Event, received, other, peer_key,
  name_or_short, display_or_short, from_bytes, handle_body, handle_event, subscribe_loop,
}

module _ (G : GossipCrates) where
  -- A name, or the short id.
  abbrev pub name_or_id : G.EndpointId → Option Text → Text
  name_or_id id none = G.fmt_short id
  name_or_id id (some name) = name

  pub name_or_short_lem :
      (id : G.EndpointId) (name : Option Text) → name_or_short G id name ≡ name_or_id id name
  name_or_short_lem id none = refl
  name_or_short_lem id (some name) = refl

  pub display_or_short_lem :
      (id : G.EndpointId) (name : Option Text) → display_or_short G id name ≡ name_or_id id name
  display_or_short_lem id none = refl
  display_or_short_lem id (some name) = refl

  -- The name that each key was given last.
  abbrev pub Announced : Type 0
  Announced = Text → Option Text

  abbrev pub heard_name : Announced → MessageBody G.EndpointId → Announced
  heard_name names (about_me from name) k =
      if text_eq (peer_key G from) k then some name else names k
  heard_name names (message from text) k = names k

  abbrev pub shown : Announced → Bytes → MessageBody G.EndpointId → List ChatMessage
  shown names nonce (about_me from name) = []
  shown names nonce (message from text) =
      record {
        id = G.hexlower_encode nonce;
        from = name_or_id from (names (peer_key G from));
        text = text;
      }
      ∷ []

  abbrev readable : Result (Message G.EndpointId) Text → Option (Message G.EndpointId)
  readable (ok m) = some m
  readable (err e) = none

  -- The message of an event, if there is one.
  abbrev pub message_in : Event → Option (Message G.EndpointId)
  message_in other = none
  message_in (received content) = readable (G.from_slice content)

  -- What the channel is to get: each message under the name that the short id of its sender was given last
  -- before it, or under that short id; the stream ends at its first error.
  abbrev pub shown_in_turn : Announced → List (Result Event Text) → List ChatMessage
  shown_in_turn names [] = []
  shown_in_turn names (err e ∷ evs) = []
  shown_in_turn names (ok ev ∷ evs) = elim (message_in ev) [
    | none ↦ shown_in_turn names evs
    | some m ↦ shown names m.nonce m.body ++ shown_in_turn (heard_name names m.body) evs
  ]

  abbrev Holds : Names → Announced → Type 0
  Holds names known = (k : Text) → HashMap.get text_key names k ≡ known k

  handle_body-Holds :
      (names : Names) (known : Announced) (nonce : Bytes) (body : MessageBody G.EndpointId)
      → Holds names known
      → Holds (handle_body G names nonce body).0 (heard_name known body)
  unfolding handle_body
  handle_body-Holds names known nonce (about_me from name) h k =
      HashMap.get-insert text_key names (peer_key G from) k name
      ∙ ap (λ o. if text_eq (peer_key G from) k then some name else o) (h k)
  handle_body-Holds names known nonce (message from text) h k = h k

  handle_body-shown :
      (names : Names) (known : Announced) (nonce : Bytes) (body : MessageBody G.EndpointId)
      → Holds names known
      → (handle_body G names nonce body).1 ≡ shown known nonce body
  unfolding handle_body
  handle_body-shown names known nonce (about_me from name) h = refl
  handle_body-shown names known nonce (message from text) h =
      ap (λ n. record { id = G.hexlower_encode nonce; from = n; text = text } ∷ [])
        (ap (name_or_short G from) (h (peer_key G from))
          ∙ name_or_short_lem from (known (peer_key G from)))

  from_bytes_err :
      (content : Bytes) (e : Text)
      → G.from_slice content ≡ err e
      → from_bytes G content ≡ err (internal e)
  unfolding from_bytes
  from_bytes_err content e h = rw h refl

  from_bytes_ok :
      (content : Bytes) (m : Message G.EndpointId)
      → G.from_slice content ≡ ok m
      → from_bytes G content ≡ ok m
  unfolding from_bytes
  from_bytes_ok content m h = rw h refl

  event_quiet :
      (names : Names) (ev : Event) → message_in ev ≡ none → handle_event G names ev ≡ (names, [])
  unfolding handle_event
  event_quiet names other e = refl
  event_quiet names (received content) e = elim (Result-cases (G.from_slice content)) [
    | inl (m, h) ↦ absurd (ground (arith, rw h at e))
    | inr (m, h) ↦ rw (handle_event, from_bytes_err content m h) refl
  ]

  event_heard :
      (names : Names) (ev : Event) (m : Message G.EndpointId)
      → message_in ev ≡ some m
      → handle_event G names ev ≡ handle_body G names m.nonce m.body
  unfolding handle_event
  event_heard names other m e = absurd (ground arith)
  event_heard names (received content) m e = elim (Result-cases (G.from_slice content)) [
    | inl (n, h) ↦
        let same : n ≡ m = cc (ap readable h, e) in
        rw (handle_event, from_bytes_ok content n h)
          (ap (λ x. handle_body G names x.nonce x.body) same)
    | inr (n, h) ↦ absurd (ground (arith, rw h at e))
  ]

  loop_step :
      (names : Names) (ev : Event) (evs : List (Result Event Text)) (t : Names × List ChatMessage)
      → handle_event G names ev ≡ t
      → (subscribe_loop G names (ok ev ∷ evs)).2 ≡ t.1 ++ (subscribe_loop G t.0 evs).2
  unfolding subscribe_loop
  loop_step names ev evs t e = ap (λ x. x.1 ++ (subscribe_loop G x.0 evs).2) e

  in_turn_quiet :
      (known : Announced) (ev : Event) (evs : List (Result Event Text))
      → message_in ev ≡ none
      → shown_in_turn known (ok ev ∷ evs) ≡ shown_in_turn known evs
  in_turn_quiet known ev evs e = rw (shown_in_turn, e) refl

  in_turn_heard :
      (known : Announced) (ev : Event) (evs : List (Result Event Text)) (m : Message G.EndpointId)
      → message_in ev ≡ some m
      → shown_in_turn known (ok ev ∷ evs)
        ≡ shown known m.nonce m.body ++ shown_in_turn (heard_name known m.body) evs
  in_turn_heard known ev evs m e = rw (shown_in_turn, e) refl

  -- From names that a table of announcements describes, the receiving loop puts exactly the
  -- messages that it can read into the channel, in order, up to the first error of the receiver:
  -- each under the name that was announced last before it by a peer with the short id of its
  -- sender, or under that short id.
  pub subscribe_loop-shown :
      (evs : List (Result Event Text)) (names : Names) (known : Announced)
      → ((k : Text) → HashMap.get text_key names k ≡ known k)
      → (subscribe_loop G names evs).2 ≡ shown_in_turn known evs
  subscribe_loop-shown [] names known h = unfold subscribe_loop in refl
  subscribe_loop-shown (err e ∷ evs) names known h = unfold subscribe_loop in refl
  subscribe_loop-shown (ok ev ∷ evs) names known h = elim (Option-cases (message_in ev)) [
    | inl e ↦
        loop_step names ev evs _ (event_quiet names ev e)
        ∙ subscribe_loop-shown evs names known h
        ∙ sym (in_turn_quiet known ev evs e)
    | inr (m, e) ↦
        loop_step names ev evs _ (event_heard names ev m e)
        ∙ ap₂ (λ x y. x ++ y) (handle_body-shown names known m.nonce m.body h)
            (subscribe_loop-shown evs (handle_body G names m.nonce m.body).0
              (heard_name known m.body) (handle_body-Holds names known m.nonce m.body h))
        ∙ sym (in_turn_heard known ev evs m e)
  ]
