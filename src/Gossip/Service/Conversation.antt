-- ===== src/Gossip/Service/Conversation.antt =====
-- A host and a guest from their first calls to the first message.
use guyos.Prelude.{ℕ, ◌≡◌, refl, ap, ◌∙◌, Option, none, some, List, [], ◌∷◌, ok}
use guyos.Text.{Bytes, Text, text_eq_refl}
use guyos.Text.Ascii.{to_ascii_uppercase}
use guyos.HashMap.{get, insert}
use guyos.Ledger.{text_key}
use guyos.Session.{Poll, ready}
use guyos.Chat.{ChatMessage, Names, post, next_message}
use guyos.Gossip.{
  GossipCrates, received, handle_event, from_bytes, handle_body, peer_key, name_or_short,
  message_of,
}
use guyos.Gossip.Opening.{about_me_message, Network, ticket_to_string}
use guyos.Gossip.Opening.Meeting.{from_str-to_string}
use guyos.Gossip.Service.{
  Chat, new_chat, open_chat, send_chat, next_chat_message, received_by, receive_event,
  receive_events,
}
use guyos.Gossip.Service.Host.{
  heard, net, host, room, host_ticket, first_message, host_sends, host_shows, said_by_host,
  said_unnamed, said_named,
}
use guyos.Gossip.Service.Guest.{joining, guest-IsListening}

module _ (G : GossipCrates) where
  -- The two kinds of messages at the receiving loop.
  heard_message :
      (names : Names) (from : G.EndpointId) (text : Text) (nonce : Bytes)
      → handle_event G names (received (G.to_vec (message_of G from text nonce))) ≡ (
        names,
        record {
          id = G.hexlower_encode nonce;
          from = name_or_short G from (get text_key names (peer_key G from));
          text = text;
        }
            ∷ [],
      )
  unfolding handle_event from_bytes handle_body
  heard_message names from text nonce =
      rw (handle_event, from_bytes, G.from_slice-to_vec (message_of G from text nonce)) refl

  heard_about :
      (names : Names) (from : G.EndpointId) (name : Text) (nonce : Bytes)
      → handle_event G names (received (G.to_vec (about_me_message G from name nonce)))
        ≡ (insert text_key names (peer_key G from) name, [])
  unfolding handle_event from_bytes handle_body
  heard_about names from name nonce =
      rw (handle_event, from_bytes, G.from_slice-to_vec (about_me_message G from name nonce)) refl

  own_name : (key name : Text) → get text_key (insert text_key [] key name) key ≡ some name
  unfolding get insert
  own_name key name = rw (text_eq_refl key) refl

  module _ (net : ℕ → Network G) (c : Chat G net) where
    -- The chat with these names, when its channel is that of a new one.
    abbrev named : Names → Chat G net
    named names = record {
      inner = record c.inner { names = names; messages = record { queue = []; capacity = 100 } };
    }

    named_eq :
        c.inner.names ≡ [] → c.inner.messages ≡ record { queue = []; capacity = 100 } → c ≡ named []
    named_eq names messages =
        ap (λ n. record { inner = record c.inner { names = n } }) names
        ∙ ap (λ m. record { inner = record c.inner { names = []; messages = m } }) messages

    -- The next message after one more event, from what the loop makes of it.
    abbrev next_after : Names → Names × List ChatMessage → Poll (Option ChatMessage)
    next_after names r =
        (next_chat_message G net (record { inner = received_by G net (named names).inner r })).0

    next_heard :
        (names : Names) (from : G.EndpointId) (text : Text) (nonce : Bytes) (as_name : Text)
        → name_or_short G from (get text_key names (peer_key G from)) ≡ as_name
        → (next_chat_message G net (
            receive_event G net
              (named names)
              (received (G.to_vec (message_of G from text nonce))))).0
          ≡ ready (some (record { id = G.hexlower_encode nonce; from = as_name; text = text }))
    unfolding receive_event next_message post
    next_heard names from text nonce as_name h =
        ap (next_after names) (heard_message names from text nonce)
        ∙ ap (λ n. ready (some (record { id = G.hexlower_encode nonce; from = n; text = text }))) h

    next_named :
        (from : G.EndpointId) (name text : Text) (nonce1 nonce2 : Bytes)
        → (next_chat_message G net (
            receive_event G net
              (receive_event G net
                (named [])
                (received (G.to_vec (about_me_message G from name nonce1))))
              (received (G.to_vec (message_of G from text nonce2))))).0
          ≡ ready (some (record { id = G.hexlower_encode nonce2; from = name; text = text }))
    unfolding receive_event
    next_named from name text nonce1 nonce2 =
        ap
          (λ r.
            (next_chat_message G net (
              receive_event G net (record { inner = received_by G net (named []).inner r })
                (received (G.to_vec (message_of G from text nonce2))))).0)
          (heard_about [] from name nonce1)
        ∙ next_heard (insert text_key [] (peer_key G from) name) from text nonce2 name
            (ap (name_or_short G from) (own_name (peer_key G from) name))

  module _ (endpoint : G.Endpoint) (sender : G.GossipSender) (topic : ℕ → G.TopicId)
      (nonce : ℕ → Bytes) where
    -- What a chat with new names and an empty channel shows next of the host.
    next_first :
        (guest_net : ℕ → Network G) (c : Chat G guest_net) (name : Option Text) (text : Text)
        → c.inner.names ≡ []
        → c.inner.messages ≡ record { queue = []; capacity = 100 }
        → (next_chat_message G guest_net
            (receive_events G guest_net c (said_by_host G endpoint sender topic nonce name text))).0
          ≡ ready (some (first_message G endpoint sender topic nonce name text))
    unfolding get
    next_first guest_net c none text names messages =
        ap (λ evs. (next_chat_message G guest_net (receive_events G guest_net c evs)).0)
          (said_unnamed G endpoint sender topic nonce text)
        ∙ ap
            (λ x.
              (next_chat_message G guest_net (
                receive_event G guest_net x
                  (received (G.to_vec (message_of G (G.id endpoint) text (nonce 2)))))).0)
            (named_eq guest_net c names messages)
        ∙ next_heard guest_net c [] (G.id endpoint) text (nonce 2) _ refl
    next_first guest_net c (some name) text names messages =
        ap (λ evs. (next_chat_message G guest_net (receive_events G guest_net c evs)).0)
          (said_named G endpoint sender topic nonce name text)
        ∙ ap
            (λ x.
              (next_chat_message G guest_net (
                receive_event G guest_net
                  (receive_event G guest_net x
                    (received (G.to_vec (about_me_message G (G.id endpoint) name (nonce 1)))))
                  (received (G.to_vec (message_of G (G.id endpoint) text (nonce 2)))))).0)
            (named_eq guest_net c names messages)
        ∙ next_named guest_net c (G.id endpoint) name text (nonce 1) (nonce 2)

    -- Two new chats, wired for clients, are on networks on which all goes well. One opens a room,
    -- and its spawned task runs; the other joins by the ticket, in whatever case it is written.
    -- Then the join succeeds; a text that the host sends is sent, and is the host's next message;
    -- and a guest that receives all that the host has broadcast shows the same message next: the
    -- same id, the same text, under the name of the host or its short id.
    pub first_message-shown :
        (endpoint' : G.Endpoint) (sender' : G.GossipSender) (topic' : ℕ → G.TopicId)
        (nonce' : ℕ → Bytes) (name name' : Option Text) (text ticket written : Text)
        → (open_chat G
            (net G endpoint sender topic nonce)
            (new_chat G (net G endpoint sender topic nonce) name)).0
          ≡ ready (ok ticket)
        → to_ascii_uppercase written ≡ to_ascii_uppercase ticket
        → let guest = joining G endpoint' sender' topic' nonce' name' written in
          let sent =
            send_chat G
              (net G endpoint sender topic nonce)
              (host G endpoint sender topic nonce name)
              text in
          (guest.0 ≡ ready (ok tt))
          × (sent.0 ≡ ready (ok tt))
          × ((next_chat_message G (net G endpoint sender topic nonce) sent.1).0
              ≡ ready (some (first_message G endpoint sender topic nonce name text)))
          × ((next_chat_message G (net G endpoint' sender' topic' nonce') (
                receive_events G
                  (net G endpoint' sender' topic' nonce')
                  guest.1
                  (heard G sent.1.inner.backend.effects))).0
              ≡ ready (some (first_message G endpoint sender topic nonce name text)))
    first_message-shown endpoint' sender' topic' nonce' name name' text ticket written opens same =
        let ticket_eq : ticket ≡ ticket_to_string G (room G endpoint sender topic nonce) =
          cc (opens, host_ticket G endpoint sender topic nonce name) in
        let read =
          from_str-to_string G (room G endpoint sender topic nonce) written
            (same ∙ ap to_ascii_uppercase ticket_eq) in
        let (joins, names, messages) =
          guest-IsListening G endpoint' sender' topic' nonce' name' written
            (room G endpoint sender topic nonce) read in
        (
          joins,
          host_sends G endpoint sender topic nonce name text,
          host_shows G endpoint sender topic nonce name text,
          next_first (net G endpoint' sender' topic' nonce')
              (joining G endpoint' sender' topic' nonce' name' written).1 name text names messages,
        )
