-- ===== src/Chat.antt =====
-- guyos_core/src/error.rs, guyos_core/src/domain/mod.rs (`ChatMessage`),
-- guyos_core/src/ports/outbound/relay_chat_backend.rs and
-- guyos_core/src/application/client_chat_service.rs. The mutexes make each call one step; the join that
-- `open` spawns is a step of its own.
pub mod Fake
pub mod Echo
pub mod Opening
mod Tests
use guyos.Prelude.{
  ℕ, zero, suc, ◌+◌, Bool, Option, none, some, List, [], ◌∷◌, ◌++◌, Result, ok, err, length, ltb,
  if◌then◌else◌,
}
use guyos.Text.{Text, lit}
use guyos.Session.{Poll, ready, pending}

pub data ChatError : Type 0 where
  endpoint_bind invalid_ticket gossip send internal : Text → ChatError

-- `impl fmt::Display for ChatError`.
unfoldable pub fmt_chat_error : ChatError → Text
fmt_chat_error (endpoint_bind msg) = lit "Failed to create network endpoint: " ++ msg
fmt_chat_error (invalid_ticket msg) = lit "Invalid chat ticket: " ++ msg
fmt_chat_error (gossip msg) = lit "Gossip protocol error: " ++ msg
fmt_chat_error (send msg) = lit "Failed to send message: " ++ msg
fmt_chat_error (internal msg) = lit "Internal chat error: " ++ msg

-- The constructors that take any `E: Display`, given its `to_string`.
abbrev pub endpoint_bind_of : {E : Type 0} → (E → Text) → E → ChatError
endpoint_bind_of to_string e = endpoint_bind (to_string e)

abbrev pub invalid_ticket_of : {E : Type 0} → (E → Text) → E → ChatError
invalid_ticket_of to_string e = invalid_ticket (to_string e)

abbrev pub gossip_of : {E : Type 0} → (E → Text) → E → ChatError
gossip_of to_string e = gossip (to_string e)

abbrev pub send_of : {E : Type 0} → (E → Text) → E → ChatError
send_of to_string e = send (to_string e)

abbrev pub internal_of : {E : Type 0} → (E → Text) → E → ChatError
internal_of to_string e = internal (to_string e)

pub record ChatMessage : Type 0 where
  pub id : Text
  pub from : Text
  pub text : Text

-- The tokio channel of the service, which holds both of its ends.
pub record Mailbox : Type 0 where
  pub queue : List ChatMessage
  pub capacity : ℕ

-- `tx.send(m).await`: `pending` while the queue is full.
unfoldable pub post : Mailbox → ChatMessage → Poll (Unit {0}) × Mailbox
post box m =
    if ltb (length box.queue) box.capacity
    then (ready tt, record box { queue = box.queue ++ m ∷ [] })
    else (pending, box)

-- The display names of the peers by their ids.
abbrev pub Names : Type 0
Names = List (Text × Text)

-- What a call of the backend gives: its answer, its own state, and the channel and the names that it was
-- lent.
pub record Turn (State A : Type 0) : Type 0 where
  pub answer : Poll (Result A ChatError)
  pub state : State
  pub mailbox : Mailbox
  pub names : Names

pub record RelayChatBackend : Type 1 where
  pub State : Type 0
  pub begin_open_room : State → Poll (Result Text ChatError) × State
  pub finish_open_join_pending : State → Mailbox → Names → Option Text → Turn State (Unit {0})
  pub join_room : State → Text → Mailbox → Names → Option Text → Turn State (Unit {0})
  pub send_user_message : State → Option Text → Text → Mailbox → Names → Turn State (Unit {0})

module _ (B : RelayChatBackend) where
  -- `spawned` counts the join tasks that have not run yet.
  pub record ClientChatService : Type 0 where
    pub backend : B.State
    pub name : Option Text
    pub names : Names
    pub messages : Mailbox
    pub spawned : ℕ

  -- `ClientChatService::new` over an empty channel.
  unfoldable pub new_service : B.State → Option Text → ℕ → ClientChatService
  new_service backend name capacity = record {
    backend = backend;
    name = name;
    names = [];
    messages = record { queue = []; capacity = capacity };
    spawned = 0;
  }

  abbrev settled : {A : Type 0} → ClientChatService → Turn B.State A → ClientChatService
  settled s t = record s { backend = t.state; messages = t.mailbox; names = t.names }

  -- `backend.begin_open_room().await?`, then the spawn and `Ok(ticket)`.
  abbrev after_begin :
      ClientChatService
      → Poll (Result Text ChatError) × B.State
      → Poll (Result Text ChatError) × ClientChatService
  after_begin s (pending, backend) = (pending, record s { backend = backend })
  after_begin s (ready (err e), backend) = (ready (err e), record s { backend = backend })
  after_begin s (ready (ok ticket), backend) =
      (ready (ok ticket), record s { backend = backend; spawned = s.spawned + 1 })

  unfoldable pub open_room : ClientChatService → Poll (Result Text ChatError) × ClientChatService
  open_room s = after_begin s (B.begin_open_room s.backend)

  -- One spawned task runs; its result is dropped.
  unfoldable pub run_spawned : ClientChatService → ClientChatService
  run_spawned s = elim s.spawned [
    | zero ↦ s
    | suc n ↦ record (settled s (B.finish_open_join_pending s.backend s.messages s.names s.name)) {
      spawned = n;
    }
  ]

  unfoldable pub join :
      ClientChatService → Text → Poll (Result (Unit {0}) ChatError) × ClientChatService
  join s ticket_str =
      let t = B.join_room s.backend ticket_str s.messages s.names s.name in (t.answer, settled s t)

  unfoldable pub send_text :
      ClientChatService → Text → Poll (Result (Unit {0}) ChatError) × ClientChatService
  send_text s text =
      let t = B.send_user_message s.backend s.name text s.messages s.names in
      (t.answer, settled s t)

  -- `rx.recv().await`; the service holds a sender, so the channel never closes.
  unfoldable pub next_message : ClientChatService → Poll (Option ChatMessage) × ClientChatService
  next_message s = elim s.messages.queue [
    | [] ↦ (pending, s)
    | m ∷ ms ↦ (ready (some m), record s { messages = record s.messages { queue = ms } })
  ]
