-- ===== src/Ledger/Room.antt =====
-- `RoomPublishState` keeps the promises of `RoomPublishLedger`.
use guyos.Prelude.{ℕ, ◌+◌, ◌≤◌, ◌<◌, ◌≡◌, refl, ap, ◌&&◌, Option, none, some, if◌then◌else◌, arith}
use guyos.Text.{Text, text_eq, text_eq_iff}
use guyos.Crates.Ids.{UuidCrate}
use guyos.HashMap
use guyos.Ledger.{
  first_acceptance, idempotent_replay, RoomPublishLedger, u64_max, text_key, uuid_key, RoomShard,
  RoomPublishState, default_state, shard_or_default, accept_or_replay,
}
use guyos.Ledger.Laws.{LedgerLaws}

module _ (U : UuidCrate) where
  abbrev shard_of : RoomPublishState U → Text → RoomShard U
  shard_of s r = shard_or_default U (HashMap.get text_key s.rooms r)

  unfoldable pub seq_of : RoomPublishState U → Text → U.Uuid → Option ℕ
  seq_of s r u = HashMap.get (uuid_key U) (shard_of s r).by_client_id u

  unfoldable pub next : RoomPublishState U → Text → ℕ
  next s r = (shard_of s r).next_seq

  abbrev written : RoomPublishState U → Text → RoomShard U → RoomPublishState U
  written s r shard = record { rooms = HashMap.insert text_key s.rooms r shard }

  shard_of-written :
      (s : RoomPublishState U) (r q : Text) (shard : RoomShard U)
      → shard_of (written s r shard) q ≡ (if text_eq r q then shard else shard_of s q)
  shard_of-written s r q shard = rw (HashMap.get-insert text_key s.rooms r q shard) (ground arith)

  -- The shard of a room that accepts `u`.
  abbrev grown : RoomShard U → U.Uuid → RoomShard U
  grown shard u = record {
    next_seq = shard.next_seq + 1;
    by_client_id = HashMap.insert (uuid_key U) shard.by_client_id u shard.next_seq;
  }

  module _ (s : RoomPublishState U) (r : Text) (u : U.Uuid) where
    pub replay_step :
        (n : ℕ)
        → seq_of s r u ≡ some n
        → accept_or_replay U s r u ≡ some (idempotent_replay n, written s r (shard_of s r))
    unfolding accept_or_replay seq_of
    replay_step n e = ground arith

    pub accept_step :
        seq_of s r u ≡ none
        → next s r < u64_max
        → accept_or_replay U s r u
          ≡ some (first_acceptance (next s r), written s r (grown (shard_of s r) u))
    unfolding accept_or_replay seq_of next
    accept_step e h = ground arith

    pub panic_step : seq_of s r u ≡ none → u64_max ≤ next s r → accept_or_replay U s r u ≡ none
    unfolding accept_or_replay seq_of next
    panic_step e h = ground arith

    shard_of-same : (q : Text) → shard_of (written s r (shard_of s r)) q ≡ shard_of s q
    shard_of-same q = ground (arith, shard_of-written s r q (shard_of s r), text_eq_iff r q)

    pub seq_of-same :
        (q : Text) (v : U.Uuid) → seq_of (written s r (shard_of s r)) q v ≡ seq_of s q v
    unfolding seq_of
    seq_of-same q v =
        ap (λ (h : RoomShard U). HashMap.get (uuid_key U) h.by_client_id v) (shard_of-same q)

    pub next-same : (q : Text) → next (written s r (shard_of s r)) q ≡ next s q
    unfolding next
    next-same q = ap (λ (h : RoomShard U). h.next_seq) (shard_of-same q)

    pub seq_of-grown :
        (q : Text) (v : U.Uuid)
        → seq_of (written s r (grown (shard_of s r) u)) q v
          ≡ (if text_eq r q && U.uuid_eq u v then some (next s r) else seq_of s q v)
    unfolding seq_of next
    seq_of-grown q v = ground (
      arith,
      shard_of-written s r q (grown (shard_of s r) u),
      HashMap.get-insert (uuid_key U) (shard_of s r).by_client_id u v (shard_of s r).next_seq,
      text_eq_iff r q,
    )

    pub next-grown :
        (q : Text)
        → next (written s r (grown (shard_of s r) u)) q
          ≡ (if text_eq r q then next s r + 1 else next s q)
    unfolding next
    next-grown q = ground (arith, shard_of-written s r q (grown (shard_of s r) u))

  -- The trait as the state implements it.
  abbrev pub room_ledger : RoomPublishLedger U
  room_ledger = record { State = RoomPublishState U; accept_or_replay = accept_or_replay U }

  pub seq_of-default : (r : Text) (u : U.Uuid) → seq_of (default_state U) r u ≡ none
  unfolding seq_of HashMap.get
  seq_of-default r u = refl

  pub next-default : (r : Text) → next (default_state U) r ≡ 0
  unfolding next HashMap.get
  next-default r = refl

  -- The in-memory ledger keeps every promise of the trait.
  abbrev pub room_laws : LedgerLaws U room_ledger
  room_laws = record {
    initial = default_state U;
    seq_of = seq_of;
    next = next;
    seq_of-initial = seq_of-default;
    next-initial = next-default;
    replayed = λ s r u n e.
        (written s r (shard_of s r), replay_step s r u n e, seq_of-same s r u, next-same s r u);
    accepted = λ s r u e h. (
      written s r (grown (shard_of s r) u),
      accept_step s r u e h,
      seq_of-grown s r u,
      next-grown s r u,
    );
    exhausted = panic_step;
  }
