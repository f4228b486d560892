-- ===== src/Servers/Names.antt =====
-- A name is found that is not in use, and the list that is read from the file has no name twice.
use nscouter.Base.Sets.{has, Distinct, length-le}
use nscouter.Base.Digits.{value_from, value_from-append, value_from-decimal}
use nscouter.Servers.{numbered, free_from, free_name}
use nscouter.Base.Text.{Text, decimal, text}
use nscouter.Base.{
  Bool-cases, length, zero, suc, refl, sym, ap, subst, inl, inr, Bool, true, false, List, [], arith,
  list_eq, ◌+◌, ◌<◌, ◌≡◌, ◌∙◌, ◌⊎◌, ◌||◌, ◌∷◌, ◌++◌, ◌===◌, nat_eq, ℕ,
}

drop-append : (s t u : Text) → s ++ t ≡ s ++ u → t ≡ u
drop-append [] t u h = h
drop-append (c ∷ s) t u h = drop-append s t u (cc)

-- The numbered names of a label are different.
numbered-injective : (label : Text) (m n : ℕ) → numbered label m ≡ numbered label n → m ≡ n
unfolding numbered
numbered-injective label m n h =
    let tail : decimal m ++ text ")" ≡ decimal n ++ text ")" =
      drop-append (text " (") _ _ (drop-append label _ _ h) in
    let read = ap (λ s. value_from 0 s) tail in
    omega (
      arith,
      sym (value_from-append 0 (decimal m) (text ")"))
          ∙ read
          ∙ value_from-append 0 (decimal n) (text ")"),
      value_from-decimal m,
      value_from-decimal n,
    )

-- The names that the loop tries.
tried : ℕ → Text → ℕ → List Text
tried zero label n = numbered label n ∷ []
tried (suc fuel) label n = numbered label n ∷ tried fuel label (n + 1)

length-tried : (fuel : ℕ) (label : Text) (n : ℕ) → length (tried fuel label n) ≡ fuel + 1
unfolding tried
length-tried zero label n = omega arith
length-tried (suc fuel) label n = omega (arith, length-tried fuel label (n + 1))

numbered-differs :
    (label : Text) (m n : ℕ) → m < n → (numbered label n === numbered label m) ≡ false
numbered-differs label m n h = elim (Bool-cases (numbered label n === numbered label m)) [
  | inr e ↦ e
  | inl e ↦
      let back = ((list_eq {A = ℕ}).beq_iff (numbered label n) (numbered label m)).0 in
      let same = numbered-injective label n m (back e) in absurd (omega (arith, same, h))
]

has-tried :
    (fuel : ℕ) (label : Text) (m n : ℕ)
    → m < n
    → has (tried fuel label n) (numbered label m) ≡ false
unfolding tried
has-tried zero label m n h = ground (arith, numbered-differs label m n h)
has-tried (suc fuel) label m n h =
    ground (arith, numbered-differs label m n h, has-tried fuel label m (n + 1) (omega (arith, h)))

Distinct-tried : (fuel : ℕ) (label : Text) (n : ℕ) → Distinct (tried fuel label n)
unfolding tried
Distinct-tried zero label n = (refl, tt)
Distinct-tried (suc fuel) label n =
    (has-tried fuel label n (n + 1) (omega arith), Distinct-tried fuel label (n + 1))

has_same :
    (used : List Text) (x a : Text) (b : Bool)
    → has used x ≡ true
    → (b ≡ true → has used a ≡ true)
    → ((x === a) || b) ≡ true
    → has used a ≡ true
has_same used x a b h f g = elim (Bool-cases (x === a)) [
  | inl e ↦
      let back = ((list_eq {A = ℕ}).beq_iff x a).0 in subst (λ y. has used y ≡ true) (back e) h
  | inr e ↦ f (ground (arith, e, g))
]

-- The loop ends at a free name, or every name it tried is in use.
free_from-free :
    (fuel : ℕ) (used : List Text) (label : Text) (n : ℕ)
    → (has used (free_from fuel used label n) ≡ false)
      ⊎ ((a : Text) → has (tried fuel label n) a ≡ true → has used a ≡ true)
unfolding free_from tried
free_from-free zero used label n = elim (Bool-cases (has used (numbered label n))) [
  | inr e ↦ inl e
  | inl e ↦ inr (λ a h. has_same used (numbered label n) a false e (λ g. absurd (cc)) h)
]
free_from-free (suc fuel) used label n = elim (Bool-cases (has used (numbered label n))) [
  | inr e ↦ inl (rw e e)
  | inl e ↦ elim (free_from-free fuel used label (n + 1)) [
    | inl f ↦ inl (rw e f)
    | inr f ↦
        inr (λ a h. has_same used (numbered label n) a (has (tried fuel label (n + 1)) a) e (f a) h)
  ]
]

-- Whatever names are in use, the loop ends, at a name that is not.
pub has-free_name : (used : List Text) (base : Text) → has used (free_name used base) ≡ false
unfolding free_name
has-free_name used base = elim (Bool-cases (has used base)) [
  | inr e ↦ rw e e
  | inl e ↦ rw e (elim (free_from-free (length used) used base 2) [
    | inl f ↦ f
    | inr f ↦
        let le =
          length-le (tried (length used) base 2) used (Distinct-tried (length used) base 2) f in
        absurd (omega (arith, le, length-tried (length used) base 2))
  ])
]
