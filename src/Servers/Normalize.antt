-- ===== src/Servers/Normalize.antt =====
-- The list that is read from the file has no name twice.
use nscouter.Base.Numbers.{not_finite}
use nscouter.Servers.Names.{has-free_name}
use nscouter.Base.Sets.{has, Distinct, add, Distinct-cons}
use nscouter.Base.Trim.{Solid, Solid-trim, Solid-append, trim-snoc}
use nscouter.Base.Text.{Text, trim, text, decimal, is_space}
use nscouter.Servers.{
  ServerProfile, display_name, numbered, free_from, free_name, settle, port_of, normalize_list,
  Number, RawProfile, milli, pos, or_empty, negsuc, profile_of, normalize_profiles,
}
use nscouter.Base.{
  Bool-cases, length, ℕ, zero, suc, refl, sym, subst, inl, inr, true, false, Option, none, some,
  List, [], append_assoc, arith, ◌+◌, ◌≤◌, ◌≡◌, ◌∙◌, ◌≢◌, ◌∷◌, ◌++◌, ◌===◌, nat_eq, list_eq,
}
use nscouter.Base.Sorts.{All}

abbrev pub names : List ServerProfile → List Text
names [] = []
names (p ∷ ps) = display_name p ∷ names ps

-- There is a host to connect to, and a port in range.
abbrev pub Reachable : ServerProfile → Type 0
Reachable p = (p.host ≢ []) × (1 ≤ p.port) × (p.port ≤ 65535)

nonempty : (s : Text) → Solid s → (s === []) ≡ false
nonempty [] h = absurd h
nonempty (c ∷ s) h = refl

pub Solid-of : (s : Text) → (trim s === []) ≡ false → Solid (trim s)
Solid-of s h = elim (Solid-trim s) [
  | inl e ↦ let none_left : (trim s === []) ≡ true = rw e refl in absurd (cc)
  | inr e ↦ e
]

Solid-display_name : (p : ServerProfile) → Solid p.host → Solid (display_name p)
unfolding display_name
Solid-display_name p h = elim (Bool-cases (trim p.name === [])) [
  | inl e ↦ rw e (Solid-append p.host _ h)
  | inr e ↦ rw e (Solid-of p.name e)
]

pub trim-numbered :
    (label : Text) (n : ℕ) → Solid label → trim (numbered label n) ≡ numbered label n
unfolding numbered is_space
trim-numbered label n h =
    let front = label ++ (text " (" ++ decimal n) in
    let whole : front ++ text ")" ≡ label ++ (text " (" ++ (decimal n ++ text ")")) =
      append_assoc label (text " (" ++ decimal n) (text ")") in
    subst (λ s. trim s ≡ s) whole (trim-snoc front 41 (Solid-append label _ h) refl)

pub free_from-numbered :
    (fuel : ℕ) (used : List Text) (label : Text) (n : ℕ)
    → (k : ℕ) × (free_from fuel used label n ≡ numbered label k)
unfolding free_from
free_from-numbered zero used label n = (n, refl)
free_from-numbered (suc fuel) used label n = elim (Bool-cases (has used (numbered label n))) [
  | inl e ↦ rw e (free_from-numbered fuel used label (n + 1))
  | inr e ↦ rw e (n, refl)
]

pub display_name-renamed :
    (p : ServerProfile) (s : Text) → trim s ≡ s → Solid s → display_name (record p { name = s }) ≡ s
unfolding display_name
display_name-renamed p s t h = rw (t, nonempty s h) refl

pub Solid-numbered : (label : Text) (n : ℕ) → Solid label → Solid (numbered label n)
unfolding numbered
Solid-numbered label n h = Solid-append label _ h

taken-free :
    (used : List Text) (base : Text)
    → has used base ≡ true
    → has used (free_from (length used) used base 2) ≡ false
unfolding free_name
taken-free used base e = let free = has-free_name used base in rw e at free

display_name-free :
    (fuel : ℕ) (used : List Text) (p : ServerProfile) (label : Text)
    → Solid label
    → let free = free_from fuel used label 2 in display_name (record p { name = free }) ≡ free
display_name-free fuel used p label h =
    let (k, e) = free_from-numbered fuel used label 2 in
    rw e (
      display_name-renamed p (numbered label k) (trim-numbered label k h)
        (Solid-numbered label k h))

-- An entry stands under a name that is its own, and that was not in use.
settle-names :
    (used : List Text) (p : ServerProfile)
    → Solid p.host
    → (display_name (settle used p).1 ≡ (settle used p).0)
      × (has used (settle used p).0 ≡ false)
      × ((settle used p).1.host ≡ p.host)
      × ((settle used p).1.port ≡ p.port)
settle-names used p h = elim (Bool-cases (has used (display_name p))) [
  | inr e ↦ rw e (refl, e, refl, refl)
  | inl e ↦ rw e (
    display_name-free (length used) used p (display_name p) (Solid-display_name p h),
    taken-free used (display_name p) e,
    refl,
    refl,
  )
]

port_of-range : (n : Number) → (1 ≤ port_of n) × (port_of n ≤ 65535)
unfolding port_of
port_of-range (milli (pos m)) = ground arith
port_of-range (milli (negsuc m)) = (omega arith, omega arith)
port_of-range not_finite = (omega arith, omega arith)

-- An entry under a name that was not in use keeps the names apart.
names-cons :
    (used : List Text) (label : Text) (p : ServerProfile) (ps : List ServerProfile)
    → display_name p ≡ label
    → has used label ≡ false
    → ((a : Text) → has (add used label) a ≡ true → has (names ps) a ≡ false)
    → Distinct (names ps)
    → ((a : Text) → has used a ≡ true → has (names (p ∷ ps)) a ≡ false) × Distinct (names (p ∷ ps))
names-cons used label p ps name free apart distinct =
    rw name (Distinct-cons used label (names ps) free apart distinct)

normalize_list-names :
    (used : List Text) (rs : List (Option RawProfile))
    → ((a : Text) → has used a ≡ true → has (names (normalize_list used rs)) a ≡ false)
      × Distinct (names (normalize_list used rs))
      × All Reachable (normalize_list used rs)
unfolding normalize_list
normalize_list-names used [] = (λ a h. refl, tt, tt)
normalize_list-names used (none ∷ rs) = normalize_list-names used rs
normalize_list-names used (some r ∷ rs) = elim (Bool-cases (trim (or_empty r.host) === [])) [
  | inl e ↦ rw (normalize_list, e) (normalize_list-names used rs)
  | inr e ↦
      let solid = Solid-of (or_empty r.host) e in
      let s = settle used (profile_of r) in
      let (name, free, host, port) = settle-names used (profile_of r) solid in
      let (apart, distinct, all) = normalize_list-names (add used s.0) rs in
      let range = port_of-range r.port in
      let (apart2, distinct2) = names-cons used s.0 s.1 _ name free apart distinct in
      rw (normalize_list, e)
        (
          apart2,
          distinct2,
          (
            (
              λ g. absurd (subst (λ l. Solid l) (sym host ∙ g) solid),
              omega (arith, port, range),
              omega (arith, port, range),
            ),
            all,
          ),
        )
]

-- Whatever the file holds, no two entries of the list have the same name on the screen, and each has
-- a host and a port from 1 to 65535.
pub normalize_profiles-names :
    (file : Option (List (Option RawProfile)))
    → Distinct (names (normalize_profiles file)) × All Reachable (normalize_profiles file)
unfolding normalize_profiles
normalize_profiles-names none = (tt, tt)
normalize_profiles-names (some rs) =
    let (_, distinct, all) = normalize_list-names [] rs in (distinct, all)
