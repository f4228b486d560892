-- ===== src/Store/Oldest.antt =====
-- The edge of what the store holds, by which the backfill is planned.
use nscouter.Base.{
  ltb, Bool-cases, ℕ, refl, inl, inr, true, false, Option, none, some, List, [], arith, ◌≤◌, ◌≡◌,
  ◌⊎◌, ◌∷◌, nat_eq, list_eq,
}
use nscouter.Base.Sets.{has}
use nscouter.Xlog.{SXlog}
use nscouter.Store.{Store, oldest_of_from, oldest_end_time_of}

abbrev pub NoneOf : List ℕ → List SXlog → Type 0
NoneOf hashes [] = Unit
NoneOf hashes (x ∷ xs) = (has hashes x.obj_hash ≡ false) × NoneOf hashes xs

-- No chosen item is older than `t`.
abbrev pub AtLeast : List ℕ → ℕ → List SXlog → Type 0
AtLeast hashes t [] = Unit
AtLeast hashes t (x ∷ xs) = (has hashes x.obj_hash ≡ true → t ≤ x.end_time) × AtLeast hashes t xs

-- Some chosen item ended at `t`.
abbrev pub Attained : List ℕ → ℕ → List SXlog → Type 0
Attained hashes t [] = ⊥
Attained hashes t (x ∷ xs) =
    ((has hashes x.obj_hash ≡ true) × (x.end_time ≡ t)) ⊎ Attained hashes t xs

-- The loop from an accumulator that has a value.
loop_some :
    (hashes : List ℕ) (a : ℕ) (xs : List SXlog)
    → (t : ℕ) × (oldest_of_from hashes (some a) xs ≡ some t)
      × (t ≤ a)
      × AtLeast hashes t xs
      × ((t ≡ a) ⊎ Attained hashes t xs)
unfolding oldest_of_from
loop_some hashes a [] = (a, refl, omega arith, tt, inl refl)
loop_some hashes a (x ∷ xs) = elim (Bool-cases (has hashes x.obj_hash)) [
  | inl e ↦ elim (Bool-cases (ltb x.end_time a)) [
    | inl l ↦
        let (t, r, le, all, at) = loop_some hashes x.end_time xs in
        rw (e, l) (t, r, ground arith, (ground arith, all), ground arith)
    | inr g ↦
        let (t, r, le, all, at) = loop_some hashes a xs in
        rw (e, g) (t, r, le, (ground arith, all), ground arith)
  ]
  | inr e ↦
      let (t, r, le, all, at) = loop_some hashes a xs in
      rw e (t, r, le, (ground arith, all), ground arith)
]

-- `none` if no chosen server has an item, and the least end time among theirs otherwise.
abbrev pub IsLeast : List ℕ → List SXlog → Option ℕ → Type 0
IsLeast hashes xs none = NoneOf hashes xs
IsLeast hashes xs (some t) = AtLeast hashes t xs × Attained hashes t xs

cons_none :
    (hashes : List ℕ) (x : SXlog) (xs : List SXlog) (r : Option ℕ)
    → has hashes x.obj_hash ≡ false
    → IsLeast hashes xs r
    → IsLeast hashes (x ∷ xs) r
cons_none hashes x xs none e h = (e, h)
cons_none hashes x xs (some t) e h = ((λ p. absurd (cc), h.0), inr h.1)

loop_none : (hashes : List ℕ) (xs : List SXlog) → IsLeast hashes xs (oldest_of_from hashes none xs)
unfolding oldest_of_from
loop_none hashes [] = tt
loop_none hashes (x ∷ xs) = elim (Bool-cases (has hashes x.obj_hash)) [
  | inl e ↦
      let (t, r, le, all, at) = loop_some hashes x.end_time xs in
      rw (e, r) ((ground arith, all), ground arith)
  | inr e ↦ rw e (cons_none hashes x xs _ e (loop_none hashes xs))
]

-- The boundary of the chosen servers is the least end time among their items, wherever it stands in
-- the array; there is none exactly when they have no item.
pub oldest_end_time_of-IsLeast :
    (s : Store) (hashes : List ℕ) → IsLeast hashes s.items (oldest_end_time_of s hashes)
unfolding oldest_end_time_of
oldest_end_time_of-IsLeast s hashes = loop_none hashes s.items
