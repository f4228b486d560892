-- ===== src/Table/Sorted.antt =====
-- The order in which the table shows its rows.
use nscouter.Base.Sorts.{total}
use nscouter.Table.{
  SXlog, insert_by, sort_by, Sign, sign_of, at_most, more, Text, less, compare, SortDir, sort_xlogs,
  SortKey, decide, SortState, SortNames, order, same, time, elapsed, asc, desc, y, server, url, ip,
}
use nscouter.Base.{
  ltb, leb, ℕ, refl, sym, ap, Bool, true, false, not, List, [], arith, ◌+◌, ◌≡◌, ◌∙◌, ◌&&◌, ◌||◌,
  ◌∷◌, nat_eq, list_eq,
}

-- Each row and the next one stand in order.
abbrev pub InOrder : (SXlog → SXlog → Bool) → List SXlog → Type 0
InOrder le [] = Unit
InOrder le (x ∷ []) = Unit
InOrder le (x ∷ z ∷ zs) = (le x z ≡ true) × InOrder le (z ∷ zs)

InOrder-insert_by :
    (le : SXlog → SXlog → Bool) (x : SXlog) (xs : List SXlog)
    → ((a b : SXlog) → (le a b || le b a) ≡ true)
    → InOrder le xs
    → InOrder le (insert_by le x xs)
unfolding insert_by
InOrder-insert_by le x [] t o = tt
InOrder-insert_by le x (z ∷ []) t o = ground (arith, t x z)
InOrder-insert_by le x (z ∷ u ∷ us) t o =
    ground (arith, t x z, t x u, InOrder-insert_by le x (u ∷ us) t o.1)

InOrder-sort_by :
    (le : SXlog → SXlog → Bool) (xs : List SXlog)
    → ((a b : SXlog) → (le a b || le b a) ≡ true)
    → InOrder le (sort_by le xs)
unfolding sort_by
InOrder-sort_by le [] t = tt
InOrder-sort_by le (x ∷ xs) t = InOrder-insert_by le x (sort_by le xs) t (InOrder-sort_by le xs t)

total-insert_by :
    (le : SXlog → SXlog → Bool) (f : SXlog → ℕ) (x : SXlog) (xs : List SXlog)
    → total f (insert_by le x xs) ≡ f x + total f xs
unfolding insert_by
total-insert_by le f x [] = refl
total-insert_by le f x (z ∷ zs) = ground (arith, total-insert_by le f x zs)

total-sort_by :
    (le : SXlog → SXlog → Bool) (f : SXlog → ℕ) (xs : List SXlog)
    → total f (sort_by le xs) ≡ total f xs
unfolding sort_by
total-sort_by le f [] = refl
total-sort_by le f (x ∷ xs) =
    omega (arith, total-insert_by le f x (sort_by le xs), total-sort_by le f xs)

abbrev pub opposite : Sign → Sign
opposite less = more
opposite same = same
opposite more = less

sign_of-opposite : (a b : ℕ) → sign_of a b ≡ opposite (sign_of b a)
unfolding sign_of
sign_of-opposite a b = ground arith

abbrev pub is_less : Sign → Bool
is_less less = true
is_less same = false
is_less more = false

is_less-sign_of : (a b : ℕ) → ltb a b ≡ is_less (sign_of a b)
unfolding sign_of
is_less-sign_of a b = ground arith

at_most-sign_of : (a b : ℕ) → at_most (sign_of a b) ≡ leb a b
unfolding sign_of
at_most-sign_of a b = ground arith

InOrder-same :
    (le le2 : SXlog → SXlog → Bool) (xs : List SXlog)
    → ((a b : SXlog) → le a b ≡ le2 a b)
    → InOrder le xs
    → InOrder le2 xs
InOrder-same le le2 [] e o = tt
InOrder-same le le2 (x ∷ []) e o = tt
InOrder-same le le2 (x ∷ z ∷ zs) e o = (sym (e x z) ∙ o.0, InOrder-same le le2 (z ∷ zs) e o.1)

module _ (locale_compare : Text → Text → Sign) where
  compare-opposite :
      (a b : SXlog) (key : SortKey) (names : SortNames)
      → ((s t : Text) → locale_compare s t ≡ opposite (locale_compare t s))
      → compare locale_compare a b key names ≡ opposite (compare locale_compare b a key names)
  unfolding compare
  compare-opposite a b time names l = sign_of-opposite a.end_time b.end_time
  compare-opposite a b elapsed names l = sign_of-opposite a.elapsed b.elapsed
  compare-opposite a b y names l = sign_of-opposite (names.y_value a) (names.y_value b)
  compare-opposite a b server names l =
      l (names.server_name a.obj_hash) (names.server_name b.obj_hash)
  compare-opposite a b url names l = l (names.url_name a.service) (names.url_name b.service)
  compare-opposite a b ip names l = l a.ip_addr b.ip_addr

  order-either :
      (dir : SortDir) (c : Sign) (a b : SXlog)
      → (at_most (decide locale_compare dir (opposite c) a b)
          || at_most (decide locale_compare dir c b a))
        ≡ true
  order-either dir same a b =
      rw (sign_of-opposite b.end_time a.end_time) (either (sign_of a.end_time b.end_time))
    where
      either : (c : Sign) → (at_most (opposite c) || at_most c) ≡ true
      either less = refl
      either same = refl
      either more = refl
  order-either asc less a b = refl
  order-either asc more a b = refl
  order-either desc less a b = refl
  order-either desc more a b = refl

  -- The column of `a` is less than that of `b`: numbers by size, names and addresses as
  -- `localeCompare` tells.
  abbrev pub less_in : SortKey → SortNames → SXlog → SXlog → Bool
  less_in time names a b = ltb a.end_time b.end_time
  less_in elapsed names a b = ltb a.elapsed b.elapsed
  less_in y names a b = ltb (names.y_value a) (names.y_value b)
  less_in server names a b =
      is_less (locale_compare (names.server_name a.obj_hash) (names.server_name b.obj_hash))
  less_in url names a b =
      is_less (locale_compare (names.url_name a.service) (names.url_name b.service))
  less_in ip names a b = is_less (locale_compare a.ip_addr b.ip_addr)

  -- Row `a` may stand directly above row `b`: upward it is less, downward it is greater, and where
  -- neither is less, it ends no earlier.
  abbrev pub may_precede : SortDir → SortKey → SortNames → SXlog → SXlog → Bool
  may_precede asc key names a b =
      less_in key names a b || not (less_in key names b a) && leb b.end_time a.end_time
  may_precede desc key names a b =
      less_in key names b a || not (less_in key names a b) && leb b.end_time a.end_time

  less_in-compare :
      (a b : SXlog) (key : SortKey) (names : SortNames)
      → less_in key names a b ≡ is_less (compare locale_compare a b key names)
  unfolding compare
  less_in-compare a b time names = is_less-sign_of a.end_time b.end_time
  less_in-compare a b elapsed names = is_less-sign_of a.elapsed b.elapsed
  less_in-compare a b y names = is_less-sign_of (names.y_value a) (names.y_value b)
  less_in-compare a b server names = refl
  less_in-compare a b url names = refl
  less_in-compare a b ip names = refl

  order-may_precede :
      (a b : SXlog) (state : SortState) (names : SortNames)
      → ((s t : Text) → locale_compare s t ≡ opposite (locale_compare t s))
      → at_most (order locale_compare state names a b) ≡ may_precede state.dir state.key names a b
  order-may_precede a b state names l =
      go state.dir (compare locale_compare a b state.key names)
        (less_in-compare a b state.key names)
        (less_in-compare b a state.key names ∙ ap is_less (compare-opposite b a state.key names l))
    where
      go :
          (dir : SortDir) (c : Sign)
          → less_in state.key names a b ≡ is_less c
          → less_in state.key names b a ≡ is_less (opposite c)
          → at_most (decide locale_compare dir c a b) ≡ may_precede dir state.key names a b
      go asc less f g = rw f refl
      go asc same f g = rw (f, g) (at_most-sign_of b.end_time a.end_time)
      go asc more f g = rw (f, g) refl
      go desc less f g = rw (g, f) refl
      go desc same f g = rw (g, f) (at_most-sign_of b.end_time a.end_time)
      go desc more f g = rw g refl

  -- The table shows the rows it was given, each as often as before, and each row may stand above the
  -- next one: upward its column is no greater, downward no less, and of two with the same value the
  -- later one stands first. (`localeCompare` of two texts has the other sign when they are swapped.)
  pub sort_xlogs-InOrder :
      (rows : List SXlog) (state : SortState) (names : SortNames) (f : SXlog → ℕ)
      → ((s t : Text) → locale_compare s t ≡ opposite (locale_compare t s))
      → InOrder (may_precede state.dir state.key names) (sort_xlogs locale_compare rows state names)
        × (total f (sort_xlogs locale_compare rows state names) ≡ total f rows)
  unfolding sort_xlogs
  sort_xlogs-InOrder rows state names f l =
      let le : SXlog → SXlog → Bool = λ a b. at_most (order locale_compare state names a b) in
      (
        InOrder-same le (may_precede state.dir state.key names) (sort_by le rows)
            (λ a b. order-may_precede a b state names l) (InOrder-sort_by le rows either),
        total-sort_by le f rows,
      )
    where
      either :
          (a b : SXlog)
          → (at_most (order locale_compare state names a b)
              || at_most (order locale_compare state names b a))
            ≡ true
      either a b =
          rw (compare-opposite a b state.key names l)
            (order-either state.dir (compare locale_compare b a state.key names) a b)
