-- ===== src/Ledger/Tests.antt =====
-- The ledger on two rooms and three ids.
use guyos.Prelude.{◌≤◌, ◌≡◌, ◌↔◌, refl, none, some, List, [], ◌∷◌, arith}
use guyos.Text.{Text, text_eq}
use guyos.Crates.Sample.{sample_uuid}
use guyos.Ledger.{
  RoomPublishState, default_state, accept_or_replay, u64_max, first_acceptance, idempotent_replay,
}
use guyos.Ledger.Room.{seq_of, next, room_ledger, room_laws}
use guyos.HashMap.{get}
use guyos.Ledger.History.{Request, decision, remember, index_of, answers, accepted_ids, run}
use guyos.Ledger.Rooms.{room_history, accept_or_replay_none_iff}

-- Two messages of the first room, one of the second, and the first one again.
abbrev calls : List (Request sample_uuid)
calls = (1 ∷ [], 7 ∷ []) ∷ (1 ∷ [], 8 ∷ []) ∷ (2 ∷ [], 7 ∷ []) ∷ (1 ∷ [], 7 ∷ []) ∷ []

answers_of_calls :
    answers sample_uuid (λ r. []) calls
    ≡ first_acceptance 0 ∷ first_acceptance 1 ∷ first_acceptance 0 ∷ idempotent_replay 0 ∷ []
unfolding decision index_of remember text_eq
answers_of_calls = refl

room_history_example :
    (s : RoomPublishState sample_uuid) × (run sample_uuid
        (room_ledger sample_uuid)
        (room_laws sample_uuid)
        (default_state sample_uuid)
        calls
      ≡ some (answers sample_uuid (λ r. []) calls, s))
    × ((r : Text) (u : Text)
        → seq_of sample_uuid s r u
          ≡ index_of sample_uuid (accepted_ids sample_uuid (λ r. []) calls r) u)
room_history_example = room_history sample_uuid calls (omega arith)

-- A room that has given out every number but the last.
abbrev full : RoomPublishState sample_uuid
full = record { rooms = (1 ∷ [], record { next_seq = u64_max; by_client_id = [] }) ∷ [] }

accept_or_replay_none_iff_example : (accept_or_replay sample_uuid full (1 ∷ []) (7 ∷ []) ≡ none) ↔ (
    (seq_of sample_uuid full (1 ∷ []) (7 ∷ []) ≡ none) × (u64_max ≤ next sample_uuid full (1 ∷ [])))
accept_or_replay_none_iff_example = accept_or_replay_none_iff sample_uuid full (1 ∷ []) (7 ∷ [])

full_panics : accept_or_replay sample_uuid full (1 ∷ []) (7 ∷ []) ≡ none
unfolding accept_or_replay get text_eq
full_panics = refl
