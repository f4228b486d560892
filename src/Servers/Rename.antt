-- ===== src/Servers/Rename.antt =====
-- A server that is given a name keeps the names apart.
use nscouter.Servers.Names.{has-free_name}
use nscouter.Servers.Upsert.{entries_of}
use nscouter.Base.Trim.{Solid, trim-trim}
use nscouter.Base.Sets.{has, Distinct, add_all, has-add_all}
use nscouter.Servers.Normalize.{
  names, free_from-numbered, trim-numbered, Solid-numbered, Solid-of, display_name-renamed,
}
use nscouter.Base.Text.{Text, trim}
use nscouter.Servers.{
  ServerProfile, names_but, display_name, same_target, change_at, find_index, free_name, rename,
  unique_name,
}
use nscouter.Base.{
  Bool-cases, Option-cases, length, beq_comm, ℕ, zero, suc, refl, sym, ap, inl, inr, false, some,
  List, [], arith, ◌≤◌, ◌≡◌, ◌∙◌, ◌||◌, ◌∷◌, ◌===◌, nat_eq, list_eq,
}

abbrev renamed : Text → ServerProfile → ServerProfile
renamed name p = record p { name = name }

names_but-all :
    (ps : List ServerProfile) (target : ServerProfile)
    → entries_of ps target ≡ 0
    → names_but (some target) ps ≡ names ps
names_but-all [] target h = refl
names_but-all (p ∷ ps) target h = elim (Bool-cases (same_target p target)) [
  | inl e ↦ absurd (ground (arith, e, h))
  | inr e ↦ rw e (ap (λ l. display_name p ∷ l) (names_but-all ps target (ground (arith, e, h))))
]

-- A name of the changed list is the new one or an old one.
has-change_at :
    (i : ℕ) (name : Text) (ps : List ServerProfile) (a : Text)
    → ((p : ServerProfile) → display_name (renamed name p) ≡ name)
    → has (names ps) a ≡ false
    → (name === a) ≡ false
    → has (names (change_at i (renamed name) ps)) a ≡ false
has-change_at i name [] a d h g = refl
has-change_at zero name (p ∷ ps) a d h g = rw (d p) (ground (arith, h, g))
has-change_at (suc i) name (p ∷ ps) a d h g =
    ground (arith, h, has-change_at i name ps a d (ground (arith, h)) g)

Distinct-change_at :
    (i : ℕ) (name : Text) (target : ServerProfile) (ps : List ServerProfile)
    → ((p : ServerProfile) → display_name (renamed name p) ≡ name)
    → Distinct (names ps)
    → entries_of ps target ≤ 1
    → has (names_but (some target) ps) name ≡ false
    → find_index ps target ≡ some i
    → Distinct (names (change_at i (renamed name) ps))
Distinct-change_at i name target [] d u o h f = tt
Distinct-change_at zero name target (p ∷ ps) d u o h f = elim (Bool-cases (same_target p target)) [
  | inr e ↦ absurd (ground (arith, Option-cases (find_index ps target), e, f))
  | inl e ↦
      let rest : entries_of ps target ≡ 0 = ground (arith, e, o) in
      let free : has (names_but (some target) ps) name ≡ false = rw e at h in
      rw (d p) (ap (λ l. has l name) (sym (names_but-all ps target rest)) ∙ free, u.1)
]
Distinct-change_at (suc i) name target (p ∷ ps) d u o h f =
    elim (Bool-cases (same_target p target)) [
      | inl e ↦ absurd (ground (arith, e, f))
      | inr e ↦
          let found : find_index ps target ≡ some i =
            ground (arith, Option-cases (find_index ps target), e, f) in
          let both : ((display_name p === name) || has (names_but (some target) ps) name) ≡ false =
            rw e at h in
          (
            has-change_at i name ps (display_name p) d u.0
                (beq_comm name (display_name p) ∙ ground (arith, both)),
            Distinct-change_at i name target ps d u.1 (ground (arith, e, o)) (ground (arith, both))
                found,
          )
    ]

-- The name that is found is shown as it stands.
Shown : Text → Type 0
Shown s = (trim s ≡ s) × Solid s

Shown-free_name : (used : List Text) (base : Text) → Shown base → Shown (free_name used base)
unfolding Shown free_name
Shown-free_name used base (t, h) = elim (Bool-cases (has used base)) [
  | inr e ↦ rw e (t, h)
  | inl e ↦
      let (k, f) = free_from-numbered (length used) used base 2 in
      rw (e, f) (trim-numbered base k h, Solid-numbered base k h)
]

-- A server that is in the list once, and is given a name that is not blank, stands under a name that
-- no other entry has, if the names were different before.
pub rename-names :
    (list : List ServerProfile) (target : ServerProfile) (name : Text)
    → Distinct (names list)
    → entries_of list target ≤ 1
    → (trim name === []) ≡ false
    → Distinct (names (rename list target name))
unfolding rename unique_name Shown
rename-names list target name u o b = elim (Option-cases (find_index list target)) [
  | inl e ↦ rw (rename, e) u
  | inr (i, e) ↦
      let used = add_all [] (names_but (some target) list) in
      let fresh = free_name used (trim name) in
      let (t, h) = Shown-free_name used (trim name) (trim-trim name, Solid-of name b) in
      let free : has (names_but (some target) list) fresh ≡ false =
        sym (has-add_all [] (names_but (some target) list) fresh)
        ∙ has-free_name used (trim name) in
      rw (rename, e, b)
        (Distinct-change_at i fresh target list (λ p. display_name-renamed p fresh t h) u o free e)
]
