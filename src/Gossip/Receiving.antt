-- ===== src/Gossip/Receiving.antt =====
-- What a peer makes of a message that another one sent.
use guyos.Prelude.{◌≡◌, refl, Option, some, [], ◌∷◌, ok}
use guyos.Text.{Bytes, Text}
use guyos.HashMap
use guyos.Ledger.{text_key}
use guyos.Chat.{ChatMessage, Names}
use guyos.Gossip.Naming.{name_or_id, name_or_short_lem, display_or_short_lem}
use guyos.Gossip.{
  GossipCrates, received, peer_key, name_or_short, from_bytes, handle_body, handle_event,
  IrohGossipRelayBackend, display_or_short, message_of, send_user_message_by_gossip,
}

module _ (G : GossipCrates) where
  -- With an endpoint and a sender, and a broadcast that succeeds, one message goes out and one
  -- echo goes to the sender's own channel, under the display name or the short id. A peer that
  -- receives the message shows it once, with the id and the text of that echo, under the name
  -- that it knows for the sender.
  pub echo_received :
      (b : IrohGossipRelayBackend G) (e : G.Endpoint) (sender : G.GossipSender)
      (display_name : Option Text) (text : Text) (nonce : Bytes) (names : Names)
      → b.endpoint ≡ some e
      → b.sender ≡ some sender
      → (wire : Bytes) × (echo : ChatMessage) × (shown : ChatMessage) × (send_user_message_by_gossip
            G b display_name text nonce
            (ok tt)
          ≡ (ok tt, wire ∷ [], echo ∷ []))
        × (handle_event G names (received wire) ≡ (names, shown ∷ []))
        × (shown.id ≡ echo.id)
        × (shown.text ≡ echo.text)
        × (echo.from ≡ name_or_id G (G.id e) display_name)
        × (shown.from ≡ name_or_id G (G.id e) (HashMap.get text_key names (peer_key G (G.id e))))
  unfolding send_user_message_by_gossip handle_event from_bytes handle_body
  echo_received b e sender display_name text nonce names has s = (
    G.to_vec (message_of G (G.id e) text nonce),
    record {
      id = G.hexlower_encode nonce;
      from = display_or_short G (G.id e) display_name;
      text = text;
    },
    record {
      id = G.hexlower_encode nonce;
      from = name_or_short G (G.id e) (HashMap.get text_key names (peer_key G (G.id e)));
      text = text;
    },
    rw (send_user_message_by_gossip, s, has) refl,
    rw (handle_event, from_bytes, G.from_slice-to_vec (message_of G (G.id e) text nonce)) refl,
    refl,
    refl,
    display_or_short_lem G (G.id e) display_name,
    name_or_short_lem G (G.id e) (HashMap.get text_key names (peer_key G (G.id e))),
  )
