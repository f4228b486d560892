-- ===== src/Base/Sorts.antt =====
-- The stable sort of a JavaScript array by a number, upward or downward, and sums over a list.
use nscouter.Base.Tests.{leb, if◌then◌else◌, Bool-cases}
use Prim.Native.Nat.{ℕ, ◌+◌, ◌≤◌}
use mathlib.Core.Path.{◌≡◌, refl}
use mathlib.Core.Logic.{inl, inr}
use mathlib.Core.List.{List, [], ◌∷◌, ◌++◌}
use native.Mathlib.Omega.{arith}

module _ {ℓ} {A : Type ℓ} where
  abbrev pub total : (A → ℕ) → List A → ℕ
  total f [] = 0
  total f (x ∷ xs) = f x + total f xs

  abbrev pub All : (A → Type 0) → List A → Type 0
  All P [] = Unit
  All P (x ∷ xs) = P x × All P xs

  module _ (key : A → ℕ) where
    unfoldable pub insert_up : A → List A → List A
    insert_up x [] = x ∷ []
    insert_up x (y ∷ ys) = if leb (key x) (key y) then x ∷ y ∷ ys else y ∷ insert_up x ys

    -- `sort((p, q) => key(p) - key(q))`.
    unfoldable pub sort_up : List A → List A
    sort_up [] = []
    sort_up (x ∷ xs) = insert_up x (sort_up xs)

    -- Each one is followed by none that is less.
    abbrev pub Upward : List A → Type 0
    Upward [] = Unit
    Upward (x ∷ []) = Unit
    Upward (x ∷ y ∷ ys) = (key x ≤ key y) × Upward (y ∷ ys)

    unfoldable pub insert_down : A → List A → List A
    insert_down x [] = x ∷ []
    insert_down x (y ∷ ys) = if leb (key y) (key x) then x ∷ y ∷ ys else y ∷ insert_down x ys

    -- `sort((p, q) => key(q) - key(p))`.
    unfoldable pub sort_down : List A → List A
    sort_down [] = []
    sort_down (x ∷ xs) = insert_down x (sort_down xs)

    -- Each one is followed by none that is greater.
    abbrev pub Downward : List A → Type 0
    Downward [] = Unit
    Downward (x ∷ []) = Unit
    Downward (x ∷ y ∷ ys) = (key y ≤ key x) × Downward (y ∷ ys)

  pub total-append : (f : A → ℕ) (xs ys : List A) → total f (xs ++ ys) ≡ total f xs + total f ys
  total-append f [] ys = omega arith
  total-append f (x ∷ xs) ys = omega (arith, total-append f xs ys)

  pub total-insert_up :
      (key f : A → ℕ) (x : A) (xs : List A) → total f (insert_up key x xs) ≡ f x + total f xs
  unfolding insert_up
  total-insert_up key f x [] = refl
  total-insert_up key f x (y ∷ ys) = ground (arith, total-insert_up key f x ys)

  pub total-sort_up : (key f : A → ℕ) (xs : List A) → total f (sort_up key xs) ≡ total f xs
  unfolding sort_up
  total-sort_up key f [] = refl
  total-sort_up key f (x ∷ xs) =
      omega (arith, total-insert_up key f x (sort_up key xs), total-sort_up key f xs)

  pub total-insert_down :
      (key f : A → ℕ) (x : A) (xs : List A) → total f (insert_down key x xs) ≡ f x + total f xs
  unfolding insert_down
  total-insert_down key f x [] = refl
  total-insert_down key f x (y ∷ ys) = ground (arith, total-insert_down key f x ys)

  pub total-sort_down : (key f : A → ℕ) (xs : List A) → total f (sort_down key xs) ≡ total f xs
  unfolding sort_down
  total-sort_down key f [] = refl
  total-sort_down key f (x ∷ xs) =
      omega (arith, total-insert_down key f x (sort_down key xs), total-sort_down key f xs)

  Downward-insert_down :
      (key : A → ℕ) (x : A) (xs : List A) → Downward key xs → Downward key (insert_down key x xs)
  unfolding insert_down
  Downward-insert_down key x [] d = tt
  Downward-insert_down key x (y ∷ []) d = ground arith
  Downward-insert_down key x (y ∷ z ∷ zs) d =
      ground (arith, Downward-insert_down key x (z ∷ zs) d.1)

  pub Downward-sort_down : (key : A → ℕ) (xs : List A) → Downward key (sort_down key xs)
  unfolding sort_down
  Downward-sort_down key [] = tt
  Downward-sort_down key (x ∷ xs) =
      Downward-insert_down key x (sort_down key xs) (Downward-sort_down key xs)

  pub All-append : (P : A → Type 0) (xs ys : List A) → All P xs → All P ys → All P (xs ++ ys)
  All-append P [] ys a b = b
  All-append P (x ∷ xs) ys a b = (a.0, All-append P xs ys a.1 b)

  pub All-insert_up :
      (key : A → ℕ) (P : A → Type 0) (x : A) (xs : List A)
      → P x
      → All P xs
      → All P (insert_up key x xs)
  unfolding insert_up
  All-insert_up key P x [] p a = (p, tt)
  All-insert_up key P x (y ∷ ys) p a = elim (Bool-cases (leb (key x) (key y))) [
    | inl e ↦ rw e (p, a)
    | inr e ↦ rw e (a.0, All-insert_up key P x ys p a.1)
  ]

  pub All-sort_up : (key : A → ℕ) (P : A → Type 0) (xs : List A) → All P xs → All P (sort_up key xs)
  unfolding sort_up
  All-sort_up key P [] a = tt
  All-sort_up key P (x ∷ xs) a =
      All-insert_up key P x (sort_up key xs) a.0 (All-sort_up key P xs a.1)

  pub All-insert_down :
      (key : A → ℕ) (P : A → Type 0) (x : A) (xs : List A)
      → P x
      → All P xs
      → All P (insert_down key x xs)
  unfolding insert_down
  All-insert_down key P x [] p a = (p, tt)
  All-insert_down key P x (y ∷ ys) p a = elim (Bool-cases (leb (key y) (key x))) [
    | inl e ↦ rw e (p, a)
    | inr e ↦ rw e (a.0, All-insert_down key P x ys p a.1)
  ]

  pub All-sort_down :
      (key : A → ℕ) (P : A → Type 0) (xs : List A) → All P xs → All P (sort_down key xs)
  unfolding sort_down
  All-sort_down key P [] a = tt
  All-sort_down key P (x ∷ xs) a =
      All-insert_down key P x (sort_down key xs) a.0 (All-sort_down key P xs a.1)

  Upward-insert_up :
      (key : A → ℕ) (x : A) (xs : List A) → Upward key xs → Upward key (insert_up key x xs)
  unfolding insert_up
  Upward-insert_up key x [] d = tt
  Upward-insert_up key x (y ∷ []) d = ground arith
  Upward-insert_up key x (y ∷ z ∷ zs) d = ground (arith, Upward-insert_up key x (z ∷ zs) d.1)

  pub Upward-sort_up : (key : A → ℕ) (xs : List A) → Upward key (sort_up key xs)
  unfolding sort_up
  Upward-sort_up key [] = tt
  Upward-sort_up key (x ∷ xs) = Upward-insert_up key x (sort_up key xs) (Upward-sort_up key xs)
