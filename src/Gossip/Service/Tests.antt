-- ===== src/Gossip/Service/Tests.antt =====
-- A named host and an unnamed guest over the sample crates.
use guyos.Prelude.{ℕ, ◌≡◌, refl, Bool, true, false, none, some, [], ◌∷◌, ok}
use guyos.Text.{Text, Bytes}
use guyos.Text.Ascii.{to_ascii_lowercase, to_ascii_uppercase}
use guyos.Session.{ready}
use guyos.Gossip.Sample.{sample_gossip}
use guyos.Gossip.Opening.{ticket_to_string}
use guyos.Gossip.Service.{next_chat_message, receive_events, send_chat}
use guyos.Gossip.Service.Host.{heard, net, host, room, host_ticket}
use guyos.Gossip.Service.Guest.{joining}
use guyos.Gossip.Service.Conversation.{first_message-shown}

abbrev topics : ℕ → Bool
topics i = true

abbrev nonces : ℕ → Bytes
nonces i = i ∷ []

abbrev ticket : Text
ticket = ticket_to_string sample_gossip (room sample_gossip true true topics nonces)

first_message-shown_example :
    let guest = joining sample_gossip false true topics nonces none (to_ascii_uppercase ticket) in
    let sent =
      send_chat sample_gossip
        (net sample_gossip true true topics nonces)
        (host sample_gossip true true topics nonces (some (b'a' ∷ [])))
        (b'h' ∷ b'i' ∷ []) in
    (guest.0 ≡ ready (ok tt))
    × (sent.0 ≡ ready (ok tt))
    × ((next_chat_message sample_gossip (net sample_gossip true true topics nonces) sent.1).0
        ≡ ready (some (record { id = 2 ∷ []; from = b'a' ∷ []; text = b'h' ∷ b'i' ∷ [] })))
    × ((next_chat_message sample_gossip (net sample_gossip false true topics nonces) (
          receive_events sample_gossip
            (net sample_gossip false true topics nonces)
            guest.1
            (heard sample_gossip sent.1.inner.backend.effects))).0
        ≡ ready (some (record { id = 2 ∷ []; from = b'a' ∷ []; text = b'h' ∷ b'i' ∷ [] })))
unfolding to_ascii_uppercase to_ascii_lowercase ticket_to_string
first_message-shown_example =
    first_message-shown sample_gossip true true topics nonces false true topics nonces
      (some (b'a' ∷ [])) none (b'h' ∷ b'i' ∷ []) ticket (to_ascii_uppercase ticket)
      (host_ticket sample_gossip true true topics nonces (some (b'a' ∷ []))) refl
