-- ===== src/Gossip/Tests.antt =====
-- Two peers over a small encoding of the messages.
use guyos.Prelude.{◌≡◌, refl, true, none, some, List, [], ◌∷◌, Result, ok, err}
use guyos.Text.{Bytes, Text, text_eq}
use guyos.HashMap
use guyos.HashMap.{get, insert}
use guyos.Ledger.{text_key}
use guyos.Chat.{ChatMessage}
use guyos.Gossip.{
  about_me, message, Event, received, other, peer_key, handle_event, subscribe_loop,
  IrohGossipRelayBackend, send_user_message_by_gossip,
}
use guyos.Gossip.Sample.{put_body, sample_gossip}
use guyos.Gossip.Naming.{name_or_id, subscribe_loop-shown}
use guyos.Gossip.Receiving.{echo_received}

-- Peer 7 speaks, says its name, and speaks again; then the stream fails.
abbrev events : List (Result Event Text)
events =
    ok (received (put_body (message (7 ∷ []) (b'a' ∷ [])) (1 ∷ [])))
    ∷ ok other
    ∷ ok (received (put_body (about_me (7 ∷ []) (b'Z' ∷ [])) (2 ∷ [])))
    ∷ ok (received (put_body (message (7 ∷ []) (b'b' ∷ [])) (3 ∷ [])))
    ∷ err []
    ∷ []

abbrev both_shown : List ChatMessage
both_shown =
    record { id = 1 ∷ []; from = 7 ∷ []; text = b'a' ∷ [] }
    ∷ record { id = 3 ∷ []; from = b'Z' ∷ []; text = b'b' ∷ [] }
    ∷ []

subscribe_loop-shown_example : (subscribe_loop sample_gossip [] events).2 ≡ both_shown
unfolding text_eq peer_key get
subscribe_loop-shown_example = subscribe_loop-shown sample_gossip events [] (λ k. none) (λ k. refl)

abbrev ready_backend : IrohGossipRelayBackend sample_gossip
ready_backend = record {
  endpoint = some true;
  gossip = some true;
  router = some true;
  sender = some true;
  pending_topic = none;
}

echo_received_example :
    (wire : Bytes) × (echo : ChatMessage) × (shown : ChatMessage) × (send_user_message_by_gossip
        sample_gossip ready_backend none
        (b'a' ∷ [])
        (1 ∷ [])
        (ok tt)
      ≡ (ok tt, wire ∷ [], echo ∷ []))
    × (handle_event sample_gossip [] (received wire) ≡ ([], shown ∷ []))
    × (shown.id ≡ echo.id)
    × (shown.text ≡ echo.text)
    × (echo.from ≡ 7 ∷ [])
    × (shown.from
        ≡ name_or_id sample_gossip
            (7 ∷ [])
            (HashMap.get text_key [] (peer_key sample_gossip (7 ∷ []))))
echo_received_example =
    echo_received sample_gossip ready_backend true true none (b'a' ∷ []) (1 ∷ []) [] refl refl
