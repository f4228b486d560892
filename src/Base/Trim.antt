-- ===== src/Base/Trim.antt =====
-- What `trim` leaves begins and ends without white space.
use nscouter.Base.Text.{Text, trim, trim_start, is_space}
use nscouter.Base.{
  Bool-cases, ℕ, refl, sym, ap, subst, inl, inr, false, [], reverse, ◌≡◌, ◌∙◌, ◌⊎◌, ◌∷◌, ◌++◌,
  reverse-reverse, reverse-append,
}

-- Not empty, and it begins without white space.
abbrev pub Solid : Text → Type 0
Solid [] = ⊥
Solid (c ∷ s) = is_space c ≡ false

pub trim_start-Solid : (s : Text) → Solid s → trim_start s ≡ s
unfolding trim_start
trim_start-Solid [] h = absurd h
trim_start-Solid (c ∷ s) h = rw h refl

pub Solid-append : (s t : Text) → Solid s → Solid (s ++ t)
Solid-append [] t h = absurd h
Solid-append (c ∷ s) t h = h

Solid-trim_start : (s : Text) → (trim_start s ≡ []) ⊎ Solid (trim_start s)
unfolding trim_start
Solid-trim_start [] = inl refl
Solid-trim_start (c ∷ s) = elim (Bool-cases (is_space c)) [
  | inl e ↦ rw e (Solid-trim_start s)
  | inr e ↦ rw e (inr e)
]

-- `trim_start` takes a prefix away.
trim_start-suffix : (s : Text) → (p : Text) × (s ≡ p ++ trim_start s)
unfolding trim_start
trim_start-suffix [] = ([], refl)
trim_start-suffix (c ∷ s) = elim (Bool-cases (is_space c)) [
  | inl e ↦ let (p, h) = trim_start-suffix s in rw e (c ∷ p, ap (λ l. c ∷ l) h)
  | inr e ↦ rw e ([], refl)
]

Solid-prefix : (s t : Text) → Solid (s ++ t) → (s ≡ []) ⊎ Solid s
Solid-prefix [] t h = inl refl
Solid-prefix (c ∷ s) t h = inr h

-- What is left is empty or begins without white space.
pub Solid-trim : (s : Text) → (trim s ≡ []) ⊎ Solid (trim s)
unfolding trim
Solid-trim s =
    let u = trim_start s in
    let w = trim_start (reverse u) in
    let (p, h) = trim_start-suffix (reverse u) in
    let whole : u ≡ reverse w ++ reverse p =
      sym (reverse-reverse u) ∙ ap (λ l. reverse l) h ∙ reverse-append p w in
    elim (Solid-trim_start s) [
      | inl e ↦ inl (rw e refl)
      | inr e ↦ Solid-prefix (reverse w) (reverse p) (subst (λ l. Solid l) whole e)
    ]

-- A text that begins and ends without white space is left as it is.
pub trim-snoc : (s : Text) (c : ℕ) → Solid s → is_space c ≡ false → trim (s ++ c ∷ []) ≡ s ++ c ∷ []
unfolding trim
trim-snoc s c h k =
    let front = trim_start-Solid (s ++ c ∷ []) (Solid-append s (c ∷ []) h) in
    let back : trim_start (c ∷ reverse s) ≡ c ∷ reverse s = trim_start-Solid (c ∷ reverse s) k in
    rw (front, reverse-append s (c ∷ []), back)
      (reverse-append (c ∷ []) (reverse s) ∙ ap (λ l. l ++ c ∷ []) (reverse-reverse s))

pub trim-trim : (s : Text) → trim (trim s) ≡ trim s
unfolding trim
trim-trim s =
    let w = trim_start (reverse (trim_start s)) in
    let front : trim_start (reverse w) ≡ reverse w = elim (Solid-trim s) [
      | inl e ↦ rw e refl
      | inr h ↦ trim_start-Solid (reverse w) h
    ] in
    let back : trim_start w ≡ w = elim (Solid-trim_start (reverse (trim_start s))) [
      | inl e ↦ rw e refl
      | inr h ↦ trim_start-Solid w h
    ] in
    ap (λ l. reverse (trim_start (reverse l))) front
    ∙ ap (λ l. reverse (trim_start l)) (reverse-reverse w)
    ∙ ap (λ l. reverse l) back
