-- ===== src/Ledger/Rooms.antt =====
-- `RoomPublishState` over a whole history, and when it panics.
use guyos.Prelude.{◌≤◌, ◌≡◌, ◌↔◌, none, some, List, [], arith, length, Option-cases, inl, inr}
use guyos.Text.{Text}
use guyos.Crates.Ids.{UuidCrate}
use guyos.Ledger.{RoomPublishState, default_state, accept_or_replay, u64_max}
use guyos.Ledger.Room.{seq_of, next, room_ledger, room_laws, replay_step, accept_step, panic_step}
use guyos.Ledger.History.{Request, index_of, answers, accepted_ids, run, run-answers}

module _ (U : UuidCrate) where
  -- From the default state up to 2^64 - 1 calls of `accept_or_replay`, for any rooms and ids, are
  -- all answered: a new id of a room by the count of ids that the room has accepted, a known one
  -- by the number it was given. The state then finds for each id its place among the ids of its
  -- room, in the order of first arrival.
  pub room_history :
      (h : List (Request U))
      → length h ≤ u64_max
      → (s : RoomPublishState U) × (run U (room_ledger U) (room_laws U) (default_state U) h
          ≡ some (answers U (λ r. []) h, s))
        × ((r : Text) (u : U.Uuid) → seq_of U s r u ≡ index_of U (accepted_ids U (λ r. []) h r) u)
  room_history h fits =
      let (s, e, ref) = run-answers U (room_ledger U) (room_laws U) h fits in (s, e, ref.seqs)

  -- A call panics exactly when the id is new to its room and the next number of the room is 2^64
  -- - 1 or more.
  pub accept_or_replay_none_iff :
      (s : RoomPublishState U) (r : Text) (u : U.Uuid)
      → (accept_or_replay U s r u ≡ none) ↔ ((seq_of U s r u ≡ none) × (u64_max ≤ next U s r))
  accept_or_replay_none_iff s r u = (panics s r u, λ h. panic_step U s r u h.0 h.1)
    where
      panics :
          (s : RoomPublishState U) (r : Text) (u : U.Uuid)
          → accept_or_replay U s r u ≡ none
          → (seq_of U s r u ≡ none) × (u64_max ≤ next U s r)
      panics s r u h = elim (Option-cases (seq_of U s r u)) [
        | inr (n, e) ↦ absurd (ground (arith, replay_step U s r u n e))
        | inl e ↦ (e, ground (arith, accept_step U s r u e))
      ]
