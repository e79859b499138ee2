-- ===== src/Ledger/History.antt =====
-- Any ledger that keeps the promises is a list for each room: the ids that the room accepted, in the
-- order of their first arrival, each with its place as its number.
use guyos.Prelude.{
  ℕ, suc, ◌+◌, ◌≤◌, ◌<◌, ◌≡◌, refl, sym, ap, ◌∙◌, ◌&&◌, Bool, true, false, Option, none, some, List,
  [], ◌∷◌, ◌++◌, if◌then◌else◌, arith, length, length-append, Option-cases, inl, inr,
}
use guyos.Text.{Text, text_eq, text_eq_iff}
use guyos.Crates.Ids.{UuidCrate}
use guyos.Ledger.{PublishDecision, first_acceptance, idempotent_replay, RoomPublishLedger, u64_max}
use guyos.Ledger.Laws.{LedgerLaws}

-- A message as the ledger sees it: its room and its id.
abbrev pub Request : UuidCrate → Type 0
Request U = Text × U.Uuid

module _ (U : UuidCrate) where
  unfoldable pub index_of : List U.Uuid → U.Uuid → Option ℕ
  index_of [] u = none
  index_of (v ∷ vs) u =
      if U.uuid_eq v u then some 0 else elim (index_of vs u) [ none ↦ none | some k ↦ some (suc k) ]

  -- The ids of a room after one more request for room `r`.
  unfoldable pub remember : List U.Uuid → Bool → U.Uuid → List U.Uuid
  remember ids false u = ids
  remember ids true u = elim (index_of ids u) [ none ↦ ids ++ u ∷ [] | some k ↦ ids ]

  abbrev pub RoomIds : Type 0
  RoomIds = Text → List U.Uuid

  abbrev pub after : RoomIds → Request U → RoomIds
  after ids (r, u) q = remember (ids q) (text_eq r q) u

  unfoldable pub decision : List U.Uuid → U.Uuid → PublishDecision
  decision ids u = elim (index_of ids u) [
    | none ↦ first_acceptance (length ids)
    | some k ↦ idempotent_replay k
  ]

  -- What the requests are answered, and the ids that the rooms end with.
  abbrev pub answers : RoomIds → List (Request U) → List PublishDecision
  answers ids [] = []
  answers ids (m ∷ h) = decision (ids m.0) m.1 ∷ answers (after ids m) h

  abbrev pub accepted_ids : RoomIds → List (Request U) → RoomIds
  accepted_ids ids [] = ids
  accepted_ids ids (m ∷ h) = accepted_ids (after ids m) h

  index_of-snoc :
      (ids : List U.Uuid) (u v : U.Uuid)
      → index_of ids u ≡ none
      → index_of (ids ++ u ∷ []) v ≡ (if U.uuid_eq u v then some (length ids) else index_of ids v)
  unfolding index_of
  index_of-snoc [] u v h = refl
  index_of-snoc (w ∷ ids) u v h =
      ground (arith, index_of-snoc ids u v, U.uuid_eq_iff w u, U.uuid_eq_iff u v, U.uuid_eq_iff w v)

  pub decision_known :
      (ids : List U.Uuid) (u : U.Uuid) (k : ℕ)
      → index_of ids u ≡ some k
      → decision ids u ≡ idempotent_replay k
  unfolding decision
  decision_known ids u k e = ground arith

  pub decision_new :
      (ids : List U.Uuid) (u : U.Uuid)
      → index_of ids u ≡ none
      → decision ids u ≡ first_acceptance (length ids)
  unfolding decision
  decision_new ids u e = ground arith

  pub length-remember :
      (ids : List U.Uuid) (b : Bool) (u : U.Uuid) → length (remember ids b u) ≤ length ids + 1
  unfolding remember
  length-remember ids false u = omega arith
  length-remember ids true u = ground (arith, length-append {0} ids (u ∷ []))

module _ (U : UuidCrate) (ids : RoomIds U) (r q : Text) (u : U.Uuid) where
  -- A known id changes no room's ids.
  after_known : (k : ℕ) → index_of U (ids r) u ≡ some k → after U ids (r, u) q ≡ ids q
  unfolding remember
  after_known k e = ground (arith, text_eq_iff r q)

  -- A new id is the last one of its room.
  index_of-after :
      (v : U.Uuid)
      → index_of U (ids r) u ≡ none
      → index_of U (after U ids (r, u) q) v
        ≡ (if text_eq r q && U.uuid_eq u v then some (length (ids r)) else index_of U (ids q) v)
  unfolding remember
  index_of-after v e = ground (arith, text_eq_iff r q, index_of-snoc U (ids q) u v)

  length-after :
      index_of U (ids r) u ≡ none
      → length (after U ids (r, u) q) ≡ (if text_eq r q then length (ids r) + 1 else length (ids q))
  unfolding remember
  length-after e = ground (arith, text_eq_iff r q, length-append {0} (ids q) (u ∷ []))

module _ (U : UuidCrate) (T : RoomPublishLedger U) (L : LedgerLaws U T) where
  -- The calls of one history in turn; `none` is a panic on the way.
  unfoldable pub run : T.State → List (Request U) → Option (List PublishDecision × T.State)
  run s [] = some ([], s)
  run s (m ∷ h) = elim (T.accept_or_replay s m.0 m.1) [
    | none ↦ none
    | some (d, s') ↦ elim (run s' h) [ none ↦ none | some (ds, s'') ↦ some (d ∷ ds, s'') ]
  ]

  pub record Refines (s : T.State) (ids : RoomIds U) : Type 0 where
    pub seqs : (r : Text) (u : U.Uuid) → L.seq_of s r u ≡ index_of U (ids r) u
    pub nexts : (r : Text) → L.next s r ≡ length (ids r)

  pub Refines-initial : Refines L.initial (λ r. [])
  unfolding index_of
  Refines-initial = record { seqs = L.seq_of-initial; nexts = L.next-initial }

  module _ (s : T.State) (ids : RoomIds U) (r : Text) (u : U.Uuid) (ref : Refines s ids) where
    step_replay :
        (k : ℕ)
        → index_of U (ids r) u ≡ some k
        → (s' : T.State) × (T.accept_or_replay s r u ≡ some (decision U (ids r) u, s'))
          × Refines s' (after U ids (r, u))
    step_replay k e =
        let (s', call, seqs, nexts) = L.replayed s r u k (ref.seqs r u ∙ e) in
        (
          s',
          call ∙ ap (λ d. some (d, s')) (sym (decision_known U (ids r) u k e)),
          record {
            seqs = λ q v.
                seqs q v
                ∙ ref.seqs q v
                ∙ ap (λ l. index_of U l v) (sym (after_known U ids r q u k e));
            nexts = λ q. nexts q ∙ ref.nexts q ∙ ap length (sym (after_known U ids r q u k e));
          },
        )

    step_accept :
        index_of U (ids r) u ≡ none
        → length (ids r) < u64_max
        → (s' : T.State) × (T.accept_or_replay s r u ≡ some (decision U (ids r) u, s'))
          × Refines s' (after U ids (r, u))
    step_accept e h =
        let (s', call, seqs, nexts) =
          L.accepted s r u (ref.seqs r u ∙ e) (omega (arith, ref.nexts r)) in
        (
          s',
          call
              ∙ ap (λ n. some (first_acceptance n, s')) (ref.nexts r)
              ∙ ap (λ d. some (d, s')) (sym (decision_new U (ids r) u e)),
          record {
            seqs = λ q v.
                seqs q v ∙ rw (ref.nexts r, ref.seqs q v) (sym (index_of-after U ids r q u v e));
            nexts = λ q. nexts q ∙ rw (ref.nexts r, ref.nexts q) (sym (length-after U ids r q u e));
          },
        )

    -- One request: the ledger answers by the ids of the room, and stays in step with them.
    pub step :
        length (ids r) < u64_max
        → (s' : T.State) × (T.accept_or_replay s r u ≡ some (decision U (ids r) u, s'))
          × Refines s' (after U ids (r, u))
    step h = elim (Option-cases (index_of U (ids r) u)) [
      | inl e ↦ step_accept e h
      | inr (k, e) ↦ step_replay k e
    ]

  run_cons :
      (s s1 s2 : T.State) (m : Request U) (h : List (Request U)) (d : PublishDecision)
      (ds : List PublishDecision)
      → T.accept_or_replay s m.0 m.1 ≡ some (d, s1)
      → run s1 h ≡ some (ds, s2)
      → run s (m ∷ h) ≡ some (d ∷ ds, s2)
  unfolding run
  run_cons s s1 s2 m h d ds e f = ground arith

  history :
      (h : List (Request U)) (s : T.State) (ids : RoomIds U)
      → Refines s ids
      → ((r : Text) → length (ids r) + length h ≤ u64_max)
      → (s' : T.State) × (run s h ≡ some (answers U ids h, s')) × Refines s' (accepted_ids U ids h)
  history [] s ids ref fits = (s, unfold run in refl, ref)
  history ((r, u) ∷ h) s ids ref fits =
      let (s1, call, ref1) = step s ids r u ref (omega (arith, fits r)) in
      let (s2, rest, ref2) =
        history h s1 (after U ids (r, u)) ref1
          (λ q. omega (arith, fits q, length-remember U (ids q) (text_eq r q) u)) in
      (s2, run_cons s s1 s2 (r, u) h _ _ call rest, ref2)

  -- From the empty ledger up to 2^64 - 1 requests, of any rooms and ids, are all answered: a new id of
  -- a room by the count of ids that the room has accepted, a known one by the number it was given. The
  -- ledger then holds for each room its ids in the order of first arrival.
  pub run-answers :
      (h : List (Request U))
      → length h ≤ u64_max
      → (s : T.State) × (run L.initial h ≡ some (answers U (λ r. []) h, s))
        × Refines s (accepted_ids U (λ r. []) h)
  run-answers h fits = history h L.initial (λ r. []) Refines-initial (λ r. omega arith)
