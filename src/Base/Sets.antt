-- ===== src/Base/Sets.antt =====
-- A JavaScript `Set`, or an array searched by `===`: a list in insertion order.
use nscouter.Base.Classes.{Eq, ◌===◌, beq_comm}
use nscouter.Base.Lists.{length}
use nscouter.Base.Tests.{if◌then◌else◌}
use Prim.Native.Nat.{suc, ◌≤◌, ◌<◌}
use mathlib.Core.Path.{◌≡◌, refl, sym, subst}
use mathlib.Core.Bool.{Bool, true, false, not, ◌&&◌, ◌||◌}
use mathlib.Core.List.{List, [], ◌∷◌, ◌++◌}
use native.Mathlib.Omega.{arith}

module _ {ℓ} {A : Type ℓ} ⦃e : Eq A⦄ where
  -- `set.has(a)`, `array.includes(a)`.
  abbrev pub has : List A → A → Bool
  has [] a = false
  has (x ∷ xs) a = (x === a) || has xs a

  -- `set.add(a)`: at the end, unless it is there.
  unfoldable pub add : List A → A → List A
  add xs a = if has xs a then xs else xs ++ a ∷ []

  -- `set.delete(a)`, `array.filter(x => x !== a)`.
  abbrev pub delete : List A → A → List A
  delete [] a = []
  delete (x ∷ xs) a = if x === a then delete xs a else x ∷ delete xs a

  -- `for (const a of ys) set.add(a)`.
  unfoldable pub add_all : List A → List A → List A
  add_all xs [] = xs
  add_all xs (y ∷ ys) = add_all (add xs y) ys

  -- No element twice.
  abbrev pub Distinct : List A → Type 0
  Distinct [] = Unit
  Distinct (x ∷ xs) = (has xs x ≡ false) × Distinct xs

module _ {ℓ} {A : Type ℓ} ⦃e : Eq A⦄ where
  pub has-append : (xs ys : List A) (a : A) → has (xs ++ ys) a ≡ (has xs a || has ys a)
  has-append [] ys a = refl
  has-append (x ∷ xs) ys a = ground (arith, has-append xs ys a)

  pub has-add : (xs : List A) (a b : A) → has (add xs a) b ≡ (has xs b || (a === b))
  unfolding add
  has-add xs a b = ground (arith, has-append xs (a ∷ []) b, e.beq_iff a b)

  pub has-delete : (xs : List A) (a b : A) → has (delete xs a) b ≡ (has xs b && not (a === b))
  has-delete [] a b = refl
  has-delete (x ∷ xs) a b =
      ground (arith, has-delete xs a b, e.beq_iff x a, e.beq_iff x b, e.beq_iff a b)

  pub has-add_all : (xs ys : List A) (b : A) → has (add_all xs ys) b ≡ (has xs b || has ys b)
  unfolding add_all
  has-add_all xs [] b = ground arith
  has-add_all xs (y ∷ ys) b = ground (arith, has-add_all (add xs y) ys b, has-add xs y b)

  pub delete-absent : (xs : List A) (a : A) → has xs a ≡ false → delete xs a ≡ xs
  delete-absent [] a h = refl
  delete-absent (x ∷ xs) a h = ground (arith, delete-absent xs a)

  pub Distinct-delete : (xs : List A) (a : A) → Distinct xs → Distinct (delete xs a)
  Distinct-delete [] a d = tt
  Distinct-delete (x ∷ xs) a d = ground (arith, Distinct-delete xs a d.1, has-delete xs a x)

  pub Distinct-snoc :
      (xs : List A) (a : A) → Distinct xs → has xs a ≡ false → Distinct (xs ++ a ∷ [])
  Distinct-snoc [] a d h = (refl, tt)
  Distinct-snoc (x ∷ xs) a d h =
      ground (arith, Distinct-snoc xs a d.1, has-append xs (a ∷ []) x, beq_comm a x)

  pub Distinct-add : (xs : List A) (a : A) → Distinct xs → Distinct (add xs a)
  unfolding add
  Distinct-add xs a d = ground (arith, Distinct-snoc xs a d)

  pub Distinct-add_all : (xs ys : List A) → Distinct xs → Distinct (add_all xs ys)
  unfolding add_all
  Distinct-add_all xs [] d = d
  Distinct-add_all xs (y ∷ ys) d = Distinct-add_all (add xs y) ys (Distinct-add xs y d)

  pub length-delete-le : (xs : List A) (a : A) → length (delete xs a) ≤ length xs
  length-delete-le [] a = ground arith
  length-delete-le (x ∷ xs) a = ground (arith, length-delete-le xs a)

  pub length-delete-lt : (xs : List A) (a : A) → has xs a ≡ true → length (delete xs a) < length xs
  length-delete-lt [] a h = ground arith
  length-delete-lt (x ∷ xs) a h = ground (arith, length-delete-lt xs a, length-delete-le xs a)

  pub length-delete :
      (xs : List A) (a : A) → Distinct xs → has xs a ≡ true → suc (length (delete xs a)) ≡ length xs
  length-delete [] a d h = ground arith
  length-delete (x ∷ xs) a d h =
      ground (arith, length-delete xs a d.1, delete-absent xs a, e.beq_iff x a)

  -- A set that lies in another has no more elements.
  pub length-le :
      (xs ys : List A)
      → Distinct xs
      → ((a : A) → has xs a ≡ true → has ys a ≡ true)
      → length xs ≤ length ys
  length-le [] ys d h = ground arith
  length-le (x ∷ xs) ys d h =
      let rest = length-le xs (delete ys x) d.1 others in
      omega (arith, rest, length-delete-lt ys x (h x (ground (arith, e.beq_iff x x))))
    where
      others : (a : A) → has xs a ≡ true → has (delete ys x) a ≡ true
      others a p = ground (arith, has-delete ys x a, h a, e.beq_iff x a, d.0)

  -- A name that was not in use, before others that are not in use beside it.
  pub Distinct-cons :
      (used : List A) (name : A) (xs : List A)
      → has used name ≡ false
      → ((a : A) → has (add used name) a ≡ true → has xs a ≡ false)
      → Distinct xs
      → ((a : A) → has used a ≡ true → has (name ∷ xs) a ≡ false) × Distinct (name ∷ xs)
  Distinct-cons used name xs free apart d = (
    λ a h. ground (arith, h, free, e.beq_iff name a, apart a, has-add used name a, same name a h),
    (apart name (ground (arith, has-add used name name, e.beq_iff name name)), d),
  )
    where
      same : (x a : A) → has used a ≡ true → (x === a) ≡ true → has used x ≡ true
      same x a h g = let back = (e.beq_iff x a).0 in subst (λ z. has used z ≡ true) (sym (back g)) h
