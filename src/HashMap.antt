-- ===== src/HashMap.antt =====
-- `std::collections::HashMap` as an association list. The code never iterates over one, so the order
-- of the entries is not modelled.
use guyos.Prelude.{
  ◌≡◌, refl, ◌↔◌, Bool, true, Option, none, some, List, [], ◌∷◌, arith, if◌then◌else◌,
}

-- `Eq` with `Hash`: a test that decides equality.
pub record Key {ℓ} (K : Type ℓ) : Type ℓ where
  pub eq : K → K → Bool
  pub eq_iff : (a b : K) → (eq a b ≡ true) ↔ (a ≡ b)

module _ {ℓ} {K : Type 0} (key : Key K) {V : Type ℓ} where
  unfoldable pub get : List (K × V) → K → Option V
  get [] k = none
  get ((j, v) ∷ m) k = if key.eq j k then some v else get m k

  unfoldable pub insert : List (K × V) → K → V → List (K × V)
  insert [] k v = (k, v) ∷ []
  insert ((j, w) ∷ m) k v = if key.eq j k then (k, v) ∷ m else (j, w) ∷ insert m k v

  -- A lookup after an insertion finds the new value at its key and the old ones elsewhere.
  pub get-insert :
      (m : List (K × V)) (k j : K) (v : V)
      → get (insert m k v) j ≡ (if key.eq k j then some v else get m j)
  unfolding get insert
  get-insert [] k j v = refl
  get-insert ((i, w) ∷ m) k j v =
      ground (arith, key.eq_iff i k, key.eq_iff i j, key.eq_iff k j, get-insert m k j v)
