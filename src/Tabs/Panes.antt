-- ===== src/Tabs/Panes.antt =====
-- What replacing, exchanging and moving a pane does to the row of panes.
use nscouter.Base.{
  Bool-cases, Option-cases, length, ℕ, suc, refl, ap, inl, inr, Bool, true, false, not, Option,
  none, some, List, [], arith, ◌+◌, ◌<◌, ◌≡◌, ◌∙◌, ◌&&◌, ◌||◌, ◌∷◌, ◌==◌, if◌then◌else◌, nat_eq,
  list_eq,
}
use nscouter.Base.Sets.{has, Distinct}
use nscouter.Base.Arrays.{
  index_of, index_of-some, index_of-none, has-insert_at, Distinct-insert_at, length-insert_at,
}
use nscouter.Tabs.{replace, swap_from, splice_pane}

-- Every member of the first list is in the second.
abbrev pub Within : List ℕ → List ℕ → Type 0
Within [] ys = Unit
Within (x ∷ xs) ys = (has ys x ≡ true) × Within xs ys

pub Within-has : (xs ys : List ℕ) (a : ℕ) → Within xs ys → has xs a ≡ true → has ys a ≡ true
Within-has [] ys a w h = absurd (cc)
Within-has (x ∷ xs) ys a w h = ground (arith, Within-has xs ys a w.1)

pub Within-of-has : (xs ys : List ℕ) → ((a : ℕ) → has xs a ≡ true → has ys a ≡ true) → Within xs ys
Within-of-has [] ys f = tt
Within-of-has (x ∷ xs) ys f = (f x (ground arith), Within-of-has xs ys (λ a h. f a (ground arith)))

pub has-replace :
    (old new : ℕ) (xs : List ℕ) (b : ℕ)
    → has (replace old new xs) b ≡ (has xs old && (new == b) || has xs b && not (old == b))
has-replace old new [] b = refl
has-replace old new (x ∷ xs) b = ground (arith, has-replace old new xs b)

pub Distinct-replace :
    (old new : ℕ) (xs : List ℕ) → Distinct xs → has xs new ≡ false → Distinct (replace old new xs)
Distinct-replace old new [] d h = tt
Distinct-replace old new (x ∷ xs) d h =
    ground
      (arith, Distinct-replace old new xs d.1, has-replace old new xs x, has-replace old new xs new)

pub length-replace : (old new : ℕ) (xs : List ℕ) → length (replace old new xs) ≡ length xs
length-replace old new [] = refl
length-replace old new (x ∷ xs) = ap suc (length-replace old new xs)

-- Two keys change places; a key that is not shown takes the other's place.
abbrev pub exchange : ℕ → ℕ → List ℕ → List ℕ
exchange key target [] = []
exchange key target (k ∷ ks) =
    (if k == target then key else if k == key then target else k) ∷ exchange key target ks

exchange_of_absent :
    (key target : ℕ) (xs : List ℕ)
    → has xs key ≡ false
    → replace target key xs ≡ exchange key target xs
exchange_of_absent key target [] h = refl
exchange_of_absent key target (x ∷ xs) h = ground (arith, exchange_of_absent key target xs)

swap_none :
    (key target i : ℕ) (xs : List ℕ) → swap_from key target none i xs ≡ replace target key xs
swap_none key target i [] = refl
swap_none key target i (x ∷ xs) = ground (arith, swap_none key target (i + 1) xs)

-- Past the index that is looked for, only the target changes.
swap_past :
    (key target j i : ℕ) (xs : List ℕ)
    → j < i
    → swap_from key target (some j) i xs ≡ replace target key xs
swap_past key target j i [] h = refl
swap_past key target j i (x ∷ xs) h = ground (arith, swap_past key target j (i + 1) xs)

swap_at :
    (key target n i : ℕ) (xs : List ℕ)
    → Distinct xs
    → index_of xs key ≡ some n
    → swap_from key target (some (i + n)) i xs ≡ exchange key target xs
swap_at key target n i [] d h = refl
swap_at key target n i (x ∷ xs) d h = elim (Bool-cases (x == key)) [
  | inl e ↦
      let z : n ≡ 0 = ground arith in
      ground (arith, swap_past key target (i + n) (i + 1) xs, exchange_of_absent key target xs)
  | inr e ↦ elim (Option-cases (index_of xs key)) [
    | inl f ↦ absurd (ground arith)
    | inr (m, f) ↦
        let z : n ≡ suc m = ground arith in
        let ih : swap_from key target (some (i + n)) (i + 1) xs ≡ exchange key target xs =
          let s : i + 1 + m ≡ i + n = omega arith in
          rw s at (swap_at key target m (i + 1) xs d.1 f) in
        ground (arith, ih)
  ]
]

-- Where every pane is shown once, the `map` of `dropTab` is an exchange.
pub swap-eq-exchange :
    (key target : ℕ) (xs : List ℕ)
    → Distinct xs
    → swap_from key target (index_of xs key) 0 xs ≡ exchange key target xs
swap-eq-exchange key target xs d = elim (Bool-cases (has xs key)) [
  | inl h ↦
      let (n, f, _, _) = index_of-some xs key h in
      let z : 0 + n ≡ n = omega arith in rw f (rw z at (swap_at key target n 0 xs d f))
  | inr h ↦
      rw (index_of-none xs key h) (swap_none key target 0 xs ∙ exchange_of_absent key target xs h)
]

pub has-exchange :
    (key target : ℕ) (xs : List ℕ) (b : ℕ)
    → (key == target) ≡ false
    → has (exchange key target xs) b
      ≡ (if b == key then has xs target else if b == target then has xs key else has xs b)
has-exchange key target [] b e = ground arith
has-exchange key target (x ∷ xs) b e = ground (arith, has-exchange key target xs b e)

pub Distinct-exchange :
    (key target : ℕ) (xs : List ℕ)
    → (key == target) ≡ false
    → Distinct xs
    → Distinct (exchange key target xs)
Distinct-exchange key target [] e d = tt
Distinct-exchange key target (x ∷ xs) e d = ground (
  arith,
  Distinct-exchange key target xs e d.1,
  has-exchange key target xs key e,
  has-exchange key target xs target e,
  has-exchange key target xs x e,
)

pub length-exchange : (key target : ℕ) (xs : List ℕ) → length (exchange key target xs) ≡ length xs
length-exchange key target [] = refl
length-exchange key target (x ∷ xs) = ap suc (length-exchange key target xs)

-- A pane set before or after another.
pub has-splice_pane :
    (before : Bool) (at : Option ℕ) (key : ℕ) (rest : List ℕ) (b : ℕ)
    → has (splice_pane before at key rest) b ≡ ((key == b) || has rest b)
has-splice_pane true none key rest b = has-insert_at _ key rest b
has-splice_pane true (some at) key rest b = has-insert_at _ key rest b
has-splice_pane false none key rest b = has-insert_at 0 key rest b
has-splice_pane false (some at) key rest b = has-insert_at _ key rest b

pub Distinct-splice_pane :
    (before : Bool) (at : Option ℕ) (key : ℕ) (rest : List ℕ)
    → Distinct rest
    → has rest key ≡ false
    → Distinct (splice_pane before at key rest)
Distinct-splice_pane true none key rest d h = Distinct-insert_at _ key rest d h
Distinct-splice_pane true (some at) key rest d h = Distinct-insert_at _ key rest d h
Distinct-splice_pane false none key rest d h = Distinct-insert_at 0 key rest d h
Distinct-splice_pane false (some at) key rest d h = Distinct-insert_at _ key rest d h

pub length-splice_pane :
    (before : Bool) (at : Option ℕ) (key : ℕ) (rest : List ℕ)
    → length (splice_pane before at key rest) ≡ suc (length rest)
length-splice_pane true none key rest = length-insert_at _ key rest
length-splice_pane true (some at) key rest = length-insert_at _ key rest
length-splice_pane false none key rest = length-insert_at 0 key rest
length-splice_pane false (some at) key rest = length-insert_at _ key rest
