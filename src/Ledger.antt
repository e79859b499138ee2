-- ===== src/Ledger.antt =====
-- guyos_core/src/domain/guyos_wire_publish.rs.
pub mod Room
pub mod Laws
pub mod History
pub mod Rooms
mod Tests
use guyos.Prelude.{
  ℕ, suc, ◌+◌, ◌^◌, ◌-◌, ◌≡◌, ◌<◌, Bool, Option, none, some, List, [], ltb, if◌then◌else◌,
}
use guyos.Text.{Text, text_eq, text_eq_iff}
use guyos.Crates.Ids.{UuidCrate}
use guyos.HashMap
use guyos.HashMap.{Key}

pub data PublishDecision : Type 0 where
  first_acceptance : ℕ → PublishDecision
  idempotent_replay : ℕ → PublishDecision

-- The trait `RoomPublishLedger` with its state; `none` is a panic of the hub's thread.
pub record RoomPublishLedger (U : UuidCrate) : Type 1 where
  pub State : Type 0
  pub accept_or_replay : State → Text → U.Uuid → Option (PublishDecision × State)

abbrev pub u64_max : ℕ
u64_max = 2 ^ 64 - 1

abbrev pub text_key : Key Text
text_key = record { eq = text_eq; eq_iff = text_eq_iff }

abbrev pub uuid_key : (U : UuidCrate) → Key U.Uuid
uuid_key U = record { eq = U.uuid_eq; eq_iff = U.uuid_eq_iff }

module _ (U : UuidCrate) where
  pub record RoomShard : Type 0 where
    pub next_seq : ℕ
    pub by_client_id : List (U.Uuid × ℕ)

  pub record RoomPublishState : Type 0 where
    pub rooms : List (Text × RoomShard)

  abbrev pub default_shard : RoomShard
  default_shard = record { next_seq = 0; by_client_id = [] }

  abbrev pub default_state : RoomPublishState
  default_state = record { rooms = [] }

  -- `rooms.entry(room_id).or_insert_with(RoomShard::default)`.
  abbrev pub shard_or_default : Option RoomShard → RoomShard
  shard_or_default none = default_shard
  shard_or_default (some s) = s

  -- What the code does with the shard: the decision, and the shard as it is left.
  unfoldable pub accept_in_shard : RoomShard → U.Uuid → Option (PublishDecision × RoomShard)
  accept_in_shard shard id = elim (HashMap.get (uuid_key U) shard.by_client_id id) [
    | some seq ↦ some (idempotent_replay seq, shard)
    | none ↦
        if ltb u64_max (shard.next_seq + 1)
        then none
        else some (
          first_acceptance shard.next_seq,
          record {
            next_seq = shard.next_seq + 1;
            by_client_id = HashMap.insert (uuid_key U) shard.by_client_id id shard.next_seq;
          },
        )
  ]

  unfoldable pub accept_or_replay :
      RoomPublishState → Text → U.Uuid → Option (PublishDecision × RoomPublishState)
  unfolding accept_in_shard
  accept_or_replay state room_id id =
      let shard = shard_or_default (HashMap.get text_key state.rooms room_id) in
      elim (accept_in_shard shard id) [
        | none ↦ none
        | some (decision, shard') ↦
            some (decision, record { rooms = HashMap.insert text_key state.rooms room_id shard' })
      ]
