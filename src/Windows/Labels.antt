-- ===== src/Windows/Labels.antt =====
-- A new window gets a label that no other one has or had.
use nscouter.Base.Sets.{has-append}
use nscouter.Base.Text.{Text, decimal}
use nscouter.Windows.{max_number, next_label, has, WindowPrefs, keys}
use nscouter.Base.{
  ltb, Bool-cases, Option-cases, drop, ℕ, ap, inl, inr, true, false, Option, none, some, List, [],
  arith, nat_eq, list_eq, ◌+◌, ◌^◌, ◌≤◌, ◌<◌, ◌≡◌, ◌∙◌, ◌⊎◌, ◌∷◌, ◌++◌, ◌===◌, if◌then◌else◌,
}

max_number-ge :
    (number : Text → Option ℕ) (best : ℕ) (ls : List Text) → best ≤ max_number number best ls
unfolding max_number
max_number-ge number best [] = omega arith
max_number-ge number best (l ∷ ls) = elim (Option-cases (number (drop 8 l))) [
  | inl e ↦ rw e (max_number-ge number best ls)
  | inr (n, e) ↦ rw e (ground (arith, max_number-ge number (if ltb best n then n else best) ls))
]

-- No label of the list has a greater number.
max_number-bounds :
    (number : Text → Option ℕ) (ls : List Text) (best : ℕ) (label : Text) (n : ℕ)
    → has ls label ≡ true
    → number (drop 8 label) ≡ some n
    → n ≤ max_number number best ls
unfolding max_number
max_number-bounds number [] best label n h e = absurd (cc)
max_number-bounds number (l ∷ ls) best label n h e = elim (Bool-cases (l === label)) [
  | inr f ↦ max_number-bounds number ls _ label n (ground (arith, f, h)) e
  | inl f ↦
      let back = ((list_eq {A = ℕ} ⦃e = nat_eq⦄).beq_iff l label).0 in
      let there : number (drop 8 l) ≡ some n = ap (λ s. number (drop 8 s)) (back f) ∙ e in
      rw there (ground (arith, max_number-ge number (if ltb best n then n else best) ls))
]

-- The integers up to here are doubles, with none left out.
abbrev pub exact_limit : ℕ
exact_limit = 2 ^ 53

-- Each label has a number below the limit, or none.
abbrev pub Exact : (Text → Option ℕ) → List Text → Type 0
Exact number [] = Unit
Exact number (l ∷ ls) =
    ((number (drop 8 l) ≡ none) ⊎ (n : ℕ) × (number (drop 8 l) ≡ some n) × (n < exact_limit))
    × Exact number ls

max_number-lt :
    (number : Text → Option ℕ) (ls : List Text) (best : ℕ)
    → best < exact_limit
    → Exact number ls
    → max_number number best ls < exact_limit
unfolding max_number
max_number-lt number [] best h x = h
max_number-lt number (l ∷ ls) best h (inl e, x) = rw e (max_number-lt number ls best h x)
max_number-lt number (l ∷ ls) best h (inr (n, e, k), x) =
    rw e (max_number-lt number ls (if ltb best n then n else best) (ground (arith, h, k)) x)

-- Whatever windows there are and whatever labels were used before, as long as their numbers are below
-- 2 ^ 53 the next label is none of them. (Up to that limit one is added without rounding, and
-- `Number` reads a decimal numeral as the number it was written for.)
pub next_label-fresh :
    {T S : Type 0} (number : Text → Option ℕ) (plus_one : ℕ → ℕ)
    (reg : List (Text × WindowPrefs T S)) (used : List Text)
    → ((n : ℕ) → n ≤ exact_limit → number (decimal n) ≡ some n)
    → ((n : ℕ) → n < exact_limit → plus_one n ≡ n + 1)
    → Exact number (keys reg ++ used)
    → (has (keys reg) (next_label number plus_one reg used) ≡ false)
      × (has used (next_label number plus_one reg used) ≡ false)
unfolding next_label
next_label-fresh number plus_one reg used h p x =
    let all = keys reg ++ used in
    let top = max_number number 0 all in
    let next = next_label number plus_one reg used in
    let few = max_number-lt number all 0 (omega arith) x in
    let read : number (decimal (plus_one top)) ≡ some (top + 1) =
      ap (λ n. number (decimal n)) (p top few) ∙ h (top + 1) (omega (arith, few)) in
    let none_of : has all next ≡ false = elim (Bool-cases (has all next)) [
      | inr e ↦ e
      | inl e ↦ absurd (omega (arith, max_number-bounds number all 0 next (top + 1) e read))
    ] in
    let split = has-append (keys reg) used next in
    (ground (arith, none_of, split), ground (arith, none_of, split))
