-- ===== src/Base/Arrays.antt =====
-- Array operations that compare with `===`: `indexOf`, `splice(i, 0, x)`, `a[i]`.
use Prim.Native.Nat.{ℕ, zero, suc, ◌<◌}
use mathlib.Core.Path.{◌≡◌, refl, ap}
use mathlib.Core.Logic.{inl, inr}
use mathlib.Core.Bool.{true, false, ◌||◌}
use mathlib.Core.Option.{Option, none, some}
use mathlib.Core.List.{List, [], ◌∷◌}
use native.Mathlib.Omega.{arith}
use nscouter.Base.Classes.{Eq, ◌===◌, beq_comm}
use nscouter.Base.Lists.{length, get_elem?}
use nscouter.Base.Tests.{if◌then◌else◌, Bool-cases}
use nscouter.Base.Sets.{has, Distinct}

-- `splice(i, 0, a)`; past the end it appends.
abbrev pub insert_at {ℓ} : {A : Type ℓ} → ℕ → A → List A → List A
insert_at zero a xs = a ∷ xs
insert_at (suc i) a [] = a ∷ []
insert_at (suc i) a (x ∷ xs) = x ∷ insert_at i a xs

module _ {ℓ} {A : Type ℓ} ⦃e' : Eq A⦄ where
  -- `indexOf`, with `none` for -1.
  abbrev pub index_of : List A → A → Option ℕ
  index_of [] a = none
  index_of (x ∷ xs) a =
      if x === a then some 0 else elim (index_of xs a) [ none ↦ none | some i ↦ some (suc i) ]

  pub has-insert_at :
      (i : ℕ) (a : A) (xs : List A) (b : A) → has (insert_at i a xs) b ≡ ((a === b) || has xs b)
  has-insert_at zero a xs b = refl
  has-insert_at (suc i) a [] b = refl
  has-insert_at (suc i) a (x ∷ xs) b = ground (arith, has-insert_at i a xs b)

  pub Distinct-insert_at :
      (i : ℕ) (a : A) (xs : List A) → Distinct xs → has xs a ≡ false → Distinct (insert_at i a xs)
  Distinct-insert_at zero a xs d h = (h, d)
  Distinct-insert_at (suc i) a [] d h = (refl, tt)
  Distinct-insert_at (suc i) a (x ∷ xs) d h =
      ground (arith, Distinct-insert_at i a xs d.1, has-insert_at i a xs x, beq_comm a x)

  pub length-insert_at : (i : ℕ) (a : A) (xs : List A) → length (insert_at i a xs) ≡ suc (length xs)
  length-insert_at zero a xs = refl
  length-insert_at (suc i) a [] = refl
  length-insert_at (suc i) a (x ∷ xs) = ap suc (length-insert_at i a xs)

  -- A key that an array holds is found, inside the array.
  pub index_of-some :
      (xs : List A) (a : A)
      → has xs a ≡ true
      → (i : ℕ) × (index_of xs a ≡ some i) × (i < length xs) × (get_elem? xs i ≡ some a)
  index_of-some [] a h = absurd (cc)
  index_of-some (x ∷ xs) a h = elim (Bool-cases (x === a)) [
    | inl e ↦ rw e (0, refl, omega arith, ground (arith, e'.beq_iff x a))
    | inr e ↦
        let (i, f, lt, g) = index_of-some xs a (ground arith) in
        rw (e, f) (suc i, refl, omega arith, g)
  ]

  pub index_of-none : (xs : List A) (a : A) → has xs a ≡ false → index_of xs a ≡ none
  index_of-none [] a h = refl
  index_of-none (x ∷ xs) a h = ground (arith, index_of-none xs a)

  pub get_elem?-some :
      (xs : List A) (i : ℕ)
      → i < length xs
      → (a : A) × (get_elem? xs i ≡ some a) × (has xs a ≡ true)
  get_elem?-some [] i h = elim h [ ]
  get_elem?-some (x ∷ xs) zero h = (x, refl, ground (arith, e'.beq_iff x x))
  get_elem?-some (x ∷ xs) (suc i) h =
      let (a, e, m) = get_elem?-some xs i (omega arith) in (a, e, ground (arith, e'.beq_iff x a))

  has_of_get_elem? : (xs : List A) (i : ℕ) (a : A) → get_elem? xs i ≡ some a → has xs a ≡ true
  has_of_get_elem? [] i a h = cc
  has_of_get_elem? (x ∷ xs) zero a h = ground (arith, e'.beq_iff x a)
  has_of_get_elem? (x ∷ xs) (suc i) a h = ground (arith, has_of_get_elem? xs i a h)

  -- Where nothing stands twice, an element is found where it stands.
  pub index_of-get_elem? :
      (xs : List A) (i : ℕ) (a : A) → Distinct xs → get_elem? xs i ≡ some a → index_of xs a ≡ some i
  index_of-get_elem? [] i a d h = cc
  index_of-get_elem? (x ∷ xs) zero a d h = ground (arith, e'.beq_iff x a)
  index_of-get_elem? (x ∷ xs) (suc i) a d h =
      ground (arith, e'.beq_iff x a, index_of-get_elem? xs i a d.1 h, has_of_get_elem? xs i a h)
