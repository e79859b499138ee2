-- ===== src/Ledger/Laws.antt =====
-- What a `RoomPublishLedger` promises its clients: one number for each accepted message of a room,
-- the next free number of the room, and what a call does to them.
use guyos.Prelude.{ℕ, ◌+◌, ◌≤◌, ◌<◌, ◌≡◌, ◌&&◌, Option, none, some, if◌then◌else◌}
use guyos.Text.{Text, text_eq}
use guyos.Crates.Ids.{UuidCrate}
use guyos.Ledger.{first_acceptance, idempotent_replay, RoomPublishLedger, u64_max}

pub record LedgerLaws (U : UuidCrate) (T : RoomPublishLedger U) : Type 1 where
  pub initial : T.State
  pub seq_of : T.State → Text → U.Uuid → Option ℕ
  pub next : T.State → Text → ℕ
  pub seq_of-initial : (r : Text) (u : U.Uuid) → seq_of initial r u ≡ none
  pub next-initial : (r : Text) → next initial r ≡ 0
  -- An id that the room has accepted is answered with its number, and nothing changes.
  pub replayed :
      (s : T.State) (r : Text) (u : U.Uuid) (n : ℕ)
      → seq_of s r u ≡ some n
      → (s' : T.State) × (T.accept_or_replay s r u ≡ some (idempotent_replay n, s'))
        × ((q : Text) (v : U.Uuid) → seq_of s' q v ≡ seq_of s q v)
        × ((q : Text) → next s' q ≡ next s q)
  -- A new id gets the next number of its room, which moves on by one; no other entry changes.
  pub accepted :
      (s : T.State) (r : Text) (u : U.Uuid)
      → seq_of s r u ≡ none
      → next s r < u64_max
      → (s' : T.State) × (T.accept_or_replay s r u ≡ some (first_acceptance (next s r), s'))
        × ((q : Text) (v : U.Uuid)
            → seq_of s' q v
              ≡ (if text_eq r q && U.uuid_eq u v then some (next s r) else seq_of s q v))
        × ((q : Text) → next s' q ≡ (if text_eq r q then next s r + 1 else next s q))
  -- With no number left the call panics.
  pub exhausted :
      (s : T.State) (r : Text) (u : U.Uuid)
      → seq_of s r u ≡ none
      → u64_max ≤ next s r
      → T.accept_or_replay s r u ≡ none
