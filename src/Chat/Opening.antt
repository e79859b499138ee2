-- ===== src/Chat/Opening.antt =====
-- `open` and the joins that it spawns.
use guyos.Prelude.{ℕ, zero, suc, ◌+◌, ◌≡◌, true, none, ok, err, arith}
use guyos.Session.{ready, pending}
use guyos.Chat.{RelayChatBackend, ClientChatService, open_room, run_spawned}
use guyos.Chat.Fake.{fake_backend, begin_open_room_inner, finish_open_join_pending_inner}

-- Over any backend, `open` answers what the backend answers and spawns one join exactly when there is a
-- ticket; the name, the names and the channel stay.
open_room_answer :
    (B : RelayChatBackend) (s : ClientChatService B)
    → ((open_room B s).0 ≡ (B.begin_open_room s.backend).0)
      × ((open_room B s).1.messages ≡ s.messages)
      × ((open_room B s).1.names ≡ s.names)
      × ((open_room B s).1.name ≡ s.name)
      × ((open_room B s).1.spawned ≡ elim (B.begin_open_room s.backend).0 [
        | ready (ok ticket) ↦ s.spawned + 1
        | ready (err e) ↦ s.spawned
        | pending ↦ s.spawned
      ])
unfolding open_room
open_room_answer B s = ground arith

abbrev pub run_times : ℕ → ClientChatService fake_backend → ClientChatService fake_backend
run_times zero s = s
run_times (suc n) s = run_times n (run_spawned fake_backend s)

run_one :
    (s : ClientChatService fake_backend) (n : ℕ)
    → s.spawned ≡ suc n
    → ((run_spawned fake_backend s).spawned ≡ n)
      × ((run_spawned fake_backend s).backend.joined ≡ true)
      × ((run_spawned fake_backend s).backend.pending_ticket ≡ none)
unfolding run_spawned finish_open_join_pending_inner
run_one s n e = ground arith

run_all :
    (n : ℕ) (s : ClientChatService fake_backend)
    → s.spawned ≡ suc n
    → ((run_times (suc n) s).spawned ≡ 0)
      × ((run_times (suc n) s).backend.joined ≡ true)
      × ((run_times (suc n) s).backend.pending_ticket ≡ none)
run_all zero s e = run_one s 0 e
run_all (suc n) s e = run_all n (run_spawned fake_backend s) (run_one s (suc n) e).0

open_spawns :
    (s : ClientChatService fake_backend) → (open_room fake_backend s).1.spawned ≡ suc s.spawned
unfolding open_room begin_open_room_inner
open_spawns s = omega arith

-- Over the fake backend, once every spawned join has run after an `open`, the backend has joined,
-- holds no pending ticket, and no join is left.
pub open_joins :
    (s : ClientChatService fake_backend)
    → let s' = run_times (suc s.spawned) (open_room fake_backend s).1 in
      (s'.spawned ≡ 0) × (s'.backend.joined ≡ true) × (s'.backend.pending_ticket ≡ none)
open_joins s = run_all s.spawned (open_room fake_backend s).1 (open_spawns s)
