-- ===== src/Base/Maps.antt =====
-- A JavaScript `Map`: pairs in insertion order, each key once.
use nscouter.Base.Classes.{Eq, ◌===◌, beq_comm}
use nscouter.Base.Sets.{has, Distinct}
use nscouter.Base.Tests.{if◌then◌else◌}
use mathlib.Core.Path.{◌≡◌, refl}
use mathlib.Core.Bool.{false, ◌||◌}
use mathlib.Core.Option.{Option, none, some}
use mathlib.Core.List.{List, [], ◌∷◌}
use native.Mathlib.Omega.{arith}

module _ {ℓ κ} {K : Type ℓ} ⦃e : Eq K⦄ {V : Type κ} where
  -- `map.get(k)`; `none` is `undefined`.
  unfoldable pub get : List (K × V) → K → Option V
  get [] k = none
  get ((j, v) ∷ m) k = if j === k then some v else get m k

  -- `map.set(k, v)`: in place, or at the end.
  unfoldable pub set : List (K × V) → K → V → List (K × V)
  set [] k v = (k, v) ∷ []
  set ((j, w) ∷ m) k v = if j === k then (j, v) ∷ m else (j, w) ∷ set m k v

  abbrev pub keys : List (K × V) → List K
  keys [] = []
  keys ((k, v) ∷ m) = k ∷ keys m

  abbrev pub values : List (K × V) → List V
  values [] = []
  values ((k, v) ∷ m) = v ∷ values m

module _ {ℓ κ} {K : Type ℓ} ⦃e : Eq K⦄ {V : Type κ} where
  pub get-set :
      (m : List (K × V)) (k j : K) (v : V)
      → get (set m k v) j ≡ (if k === j then some v else get m j)
  unfolding get set
  get-set [] k j v = refl
  get-set ((i, w) ∷ m) k j v =
      ground (arith, get-set m k j v, e.beq_iff i k, e.beq_iff i j, e.beq_iff k j)

  pub has-keys-set :
      (m : List (K × V)) (k j : K) (v : V)
      → has (keys (set m k v)) j ≡ (has (keys m) j || (k === j))
  unfolding set
  has-keys-set [] k j v = ground arith
  has-keys-set ((i, w) ∷ m) k j v = ground (arith, has-keys-set m k j v, e.beq_iff i k)

  pub Distinct-set :
      (m : List (K × V)) (k : K) (v : V) → Distinct (keys m) → Distinct (keys (set m k v))
  unfolding set
  Distinct-set [] k v d = (refl, tt)
  Distinct-set ((i, w) ∷ m) k v d =
      ground (arith, Distinct-set m k v d.1, has-keys-set m k i v, beq_comm i k)

  pub get-eq-none : (m : List (K × V)) (k : K) → has (keys m) k ≡ false → get m k ≡ none
  unfolding get
  get-eq-none [] k h = refl
  get-eq-none ((i, w) ∷ m) k h = ground (arith, get-eq-none m k)
