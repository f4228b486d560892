-- ===== src/SavedFilters/Loaded.antt =====
-- A saved filter that is loaded is the current one.
use nscouter.Xlog.{SXlog}
use nscouter.Filter.{passes_patterns, passes_filter, value_at}
use nscouter.Filter.Patterns.{wanted, allowed, found, blocked, passes_patterns-allowed}
use nscouter.Base.Sets.{has, Distinct, add, Distinct-cons}
use nscouter.SavedFilters.{
  PatternRule, same_kind, same_flag, is_same, blank_text, filled_rules, FilterField, every_same,
  to_patch, from_filter, SavedFilter, XlogFilterState, RawRule, saved_rules, Text,
  normalize_entries, normalize_filters, rule_of, RawFilter, or_blank, trim, filter_of, or_no_rules,
}
use nscouter.Base.{
  Bool-cases, Option-cases, ℕ, refl, ap, inl, inr, Bool, true, false, Option, none, some, List, [],
  arith, nat_eq, list_eq, ◌≡◌, ◌≢◌, ◌||◌, ◌∷◌, ◌++◌, ◌===◌,
}
use nscouter.Base.Sorts.{All}

-- No rule has a blank text.
abbrev pub Filled : List PatternRule → Type 0
Filled [] = Unit
Filled (r ∷ rs) = (blank_text r.text ≡ false) × Filled rs

Filled-filled_rules : (rs : List PatternRule) → Filled (filled_rules rs)
Filled-filled_rules [] = tt
Filled-filled_rules (r ∷ rs) = elim (Bool-cases (blank_text r.text)) [
  | inl e ↦ rw e (Filled-filled_rules rs)
  | inr e ↦ rw e (e, Filled-filled_rules rs)
]

filled_rules-same : (rs : List PatternRule) → Filled rs → filled_rules rs ≡ rs
filled_rules-same [] f = refl
filled_rules-same (r ∷ rs) f = rw f.0 (ap (λ l. r ∷ l) (filled_rules-same rs f.1))

same_kind_self : (f : FilterField) → same_kind f f ≡ true
unfolding same_kind
same_kind_self FilterField.service = refl
same_kind_self FilterField.ip = refl

same_flag_self : (b : Bool) → same_flag b b ≡ true
same_flag_self true = refl
same_flag_self false = refl

every_same_self : (rs : List PatternRule) → every_same rs rs ≡ true
every_same_self [] = refl
every_same_self (r ∷ rs) = ground (
  arith,
  same_kind_self r.field,
  same_flag_self r.exclude,
  (list_eq {A = ℕ} ⦃e = nat_eq⦄).beq_iff r.text r.text,
  every_same_self rs,
)

-- A saved filter without blank rules.
is_same-to_patch :
    (saved : SavedFilter) (filter : XlogFilterState)
    → Filled saved.patterns
    → is_same saved (to_patch saved filter) ≡ true
unfolding is_same to_patch from_filter
is_same-to_patch saved filter f =
    rw
      (
        filled_rules-same saved.patterns f,
        same_flag_self saved.error_only,
        same_flag_self saved.elapsed_exclude,
        every_same_self saved.patterns,
      )
      (ground arith)

Filled-append : (rs bs : List PatternRule) → Filled rs → Filled bs → Filled (rs ++ bs)
Filled-append [] bs f g = g
Filled-append (r ∷ rs) bs f g = (f.0, Filled-append rs bs f.1 g)

Filled-rule_of : (r : Option RawRule) → Filled (rule_of r)
Filled-rule_of none = tt
Filled-rule_of (some r) = elim (Option-cases r.field) [
  | inl e ↦ rw e tt
  | inr (field, e) ↦ elim (Bool-cases (blank_text (or_blank r.text))) [
    | inl b ↦ rw (e, b) tt
    | inr b ↦ rw (e, b) (b, tt)
  ]
]

Filled-saved_rules : (rs : List (Option RawRule)) → Filled (saved_rules rs)
unfolding saved_rules
Filled-saved_rules [] = tt
Filled-saved_rules (r ∷ rs) =
    Filled-append (rule_of r) (saved_rules rs) (Filled-rule_of r) (Filled-saved_rules rs)

module _ (lower : Text → Text) where
  blocked-filled_rules :
      (rs : List PatternRule) (field : FilterField) (value : Text)
      → blocked lower field value (filled_rules rs) ≡ blocked lower field value rs
  blocked-filled_rules [] field value = refl
  blocked-filled_rules (r ∷ rs) field value = ground (arith, blocked-filled_rules rs field value)

  wanted-filled_rules :
      (rs : List PatternRule) (field : FilterField)
      → wanted lower field (filled_rules rs) ≡ wanted lower field rs
  wanted-filled_rules [] field = refl
  wanted-filled_rules (r ∷ rs) field = ground (arith, wanted-filled_rules rs field)

  found-filled_rules :
      (rs : List PatternRule) (field : FilterField) (value : Text)
      → found lower field value (filled_rules rs) ≡ found lower field value rs
  found-filled_rules [] field value = refl
  found-filled_rules (r ∷ rs) field value = ground (arith, found-filled_rules rs field value)

  allowed-filled_rules :
      (rs : List PatternRule) (value_of : FilterField → Text) (field : FilterField)
      → allowed lower value_of (filled_rules rs) field ≡ allowed lower value_of rs field
  allowed-filled_rules rs value_of field =
      rw
        (
          blocked-filled_rules rs field (lower (value_of field)),
          wanted-filled_rules rs field,
          found-filled_rules rs field (lower (value_of field)),
        )
        refl

  -- Rules with a blank text let everything pass.
  passes_patterns-filled_rules :
      (rs : List PatternRule) (value_of : FilterField → Text)
      → passes_patterns lower (filled_rules rs) value_of ≡ passes_patterns lower rs value_of
  passes_patterns-filled_rules rs value_of =
      rw
        (
          passes_patterns-allowed lower (filled_rules rs) value_of,
          passes_patterns-allowed lower rs value_of,
          allowed-filled_rules rs value_of FilterField.service,
          allowed-filled_rules rs value_of FilterField.ip,
        )
        refl

  -- Whatever filter is saved, and whatever filter it is loaded over: every transaction passes the
  -- loaded filter exactly if it passes the one that was saved, with the chosen servers of the one it
  -- is loaded over; and it is then marked as the current one.
  pub from_filter-to_patch :
      (name : Text) (filter other : XlogFilterState) (xlog : SXlog) (service_name : ℕ → Option Text)
      → let saved = from_filter name filter in
        (passes_filter lower xlog (to_patch saved other) service_name
          ≡ passes_filter lower xlog
              (record filter { obj_hash_set = other.obj_hash_set })
              service_name)
        × (is_same saved (to_patch saved other) ≡ true)
  unfolding from_filter to_patch passes_filter
  from_filter-to_patch name filter other xlog service_name = (
    rw (passes_patterns-filled_rules filter.patterns (value_at lower service_name xlog)) refl,
    is_same-to_patch (from_filter name filter) other (Filled-filled_rules filter.patterns),
  )

abbrev pub filter_names : List SavedFilter → List Text
filter_names [] = []
filter_names (f ∷ fs) = f.name ∷ filter_names fs

-- It has a name, and when it is loaded it is marked as the current one.
abbrev pub Usable : SavedFilter → Type 0
Usable f = (f.name ≢ []) × ((other : XlogFilterState) → is_same f (to_patch f other) ≡ true)

normalize_entries-names :
    (used : List Text) (rs : List (Option RawFilter))
    → ((a : Text) → has used a ≡ true → has (filter_names (normalize_entries used rs)) a ≡ false)
      × Distinct (filter_names (normalize_entries used rs))
      × All Usable (normalize_entries used rs)
unfolding normalize_entries
normalize_entries-names used [] = (λ a h. refl, tt, tt)
normalize_entries-names used (none ∷ rs) = normalize_entries-names used rs
normalize_entries-names used (some r ∷ rs) =
    let name = trim (or_blank r.name) in
    elim (Bool-cases ((name === []) || has used name)) [
      | inl e ↦ rw (normalize_entries, e) (normalize_entries-names used rs)
      | inr e ↦
          let (apart, distinct, all) = normalize_entries-names (add used name) rs in
          let free : has used name ≡ false = ground (arith, e) in
          let (apart2, distinct2) =
            Distinct-cons used name (filter_names (normalize_entries (add used name) rs)) free apart
              distinct in
          rw (normalize_entries, e)
            (
              apart2,
              distinct2,
              (
                (
                  λ g.
                      let empty = ((list_eq {A = ℕ} ⦃e = nat_eq⦄).beq_iff name []).1 g in
                      absurd (ground (arith, e, empty)),
                  λ other.
                      is_same-to_patch (filter_of r) other
                        (Filled-saved_rules (or_no_rules r.patterns)),
                ),
                all,
              ),
            )
    ]

-- Whatever the file holds, no two saved filters have the same name, none is without one, and each is
-- marked as the current one when it is loaded, over whatever filter.
pub normalize_filters-Usable :
    (file : Option (List (Option RawFilter)))
    → Distinct (filter_names (normalize_filters file)) × All Usable (normalize_filters file)
unfolding normalize_filters
normalize_filters-Usable none = (tt, tt)
normalize_filters-Usable (some rs) =
    let (_, distinct, all) = normalize_entries-names [] rs in (distinct, all)
