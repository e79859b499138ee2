-- ===== src/Relay/Terminal.antt =====
-- guyos_core/src/main.rs: the command with which the program begins, and the loop that sends the typed
-- lines. The rendering of a QR code is a parameter. What is printed is a part of the outcome, one text for
-- each call; an error is the text that it prints.
pub mod Sending
mod Tests
use guyos.Prelude.{Option, none, some, List, [], ◌∷◌, ◌++◌, Result, ok, err}
use guyos.Text.{Text, lit}
use guyos.Session.{Poll, ready, pending}
use guyos.Chat.{ChatError, fmt_chat_error, RelayChatBackend, ClientChatService, send_text}
use guyos.Chat
use guyos.Relay.{Command, open_room, join}

module _ (B : RelayChatBackend) where
  abbrev pub Outcome : Type 0
  Outcome = Poll (Result (Unit {0}) Text) × ClientChatService B × List Text

  abbrev pub prefixed : List Text → Outcome → Outcome
  prefixed lines (r, s, printed) = (r, s, lines ++ printed)

  -- From the QR code on.
  abbrev opened : ClientChatService B → Result Text Text → Outcome
  opened s (err e) = (ready (err e), s, [])
  opened s (ok qr) = (ready (ok tt), s, qr ∷ lit "> waiting for endpoints to join us..." ∷ [])

  abbrev after_open :
      (Text → Result Text Text) → Poll (Result Text ChatError) × ClientChatService B → Outcome
  after_open render_ticket_qr (pending, s) = (pending, s, [])
  after_open render_ticket_qr (ready (err e), s) = (ready (err (fmt_chat_error e)), s, [])
  after_open render_ticket_qr (ready (ok ticket), s) =
      prefixed ((lit "> ticket to join us: " ++ ticket) ∷ [] ∷ lit "> or scan:" ∷ [])
        (opened s (render_ticket_qr ticket))

  abbrev after_join : Poll (Result (Unit {0}) ChatError) × ClientChatService B → Outcome
  after_join (pending, s) = (pending, s, [])
  after_join (ready (err e), s) = (ready (err (fmt_chat_error e)), s, [])
  after_join (ready (ok u), s) = (ready (ok tt), s, lit "> connected!" ∷ [])

  -- `match &args.command`
  unfoldable pub run_command : (Text → Result Text Text) → ClientChatService B → Command → Outcome
  run_command render_ticket_qr s open_room =
      prefixed (lit "> opening chat room..." ∷ [])
        (after_open render_ticket_qr (Chat.open_room B s))
  run_command render_ticket_qr s (join ticket) =
      prefixed (lit "> joining chat room..." ∷ []) (after_join (Chat.join B s ticket))

  -- Behind one `chat.send(text.clone()).await?`; `later` are the rounds behind it.
  abbrev pub forward_round :
      Text → Poll (Result (Unit {0}) ChatError) → ClientChatService B → Outcome → Outcome
  forward_round text pending s later = (pending, s, [])
  forward_round text (ready (err e)) s later = (ready (err (fmt_chat_error e)), s, [])
  forward_round text (ready (ok u)) s later = prefixed ((lit "> sent: " ++ text) ∷ []) later

  -- `while let Some(text) = line_rx.recv().await`, over the texts that come before the sender is gone.
  unfoldable pub forward_lines : ClientChatService B → List Text → Outcome
  forward_lines s [] = (ready (ok tt), s, [])
  forward_lines s (text ∷ texts) =
      let (r, s') = send_text B s text in forward_round text r s' (forward_lines s' texts)
