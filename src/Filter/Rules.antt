-- ===== src/Filter/Rules.antt =====
-- The single line that the toolbar edits, the first rule of its field.
use nscouter.Base.{
  Bool-cases, Option-cases, ℕ, zero, suc, refl, inl, inr, true, false, none, some, List, [], arith,
  ◌≡◌, ◌≢◌, ◌∷◌, ◌++◌, ◌===◌, nat_eq, list_eq,
}
use nscouter.Filter.{
  field_eq, TextFilter, PatternRule, first_rule, rules_of, FilterField, set_first_rule, rule_at,
  find_rule, rules_at, XlogFilterState, new_rule, patch_at, remove_at, is_blank, same_field_iff,
}

abbrev NextRule : List PatternRule → FilterField → TextFilter → Type 0
NextRule ps field next =
    (r : PatternRule) × (rule_at ps field ≡ some r)
    × (r.text ≡ next.text)
    × (r.exclude ≡ next.exclude)

rule_at-append :
    (ps : List PatternRule) (field : FilterField) (next : TextFilter)
    → find_rule ps field ≡ none
    → NextRule (ps ++ new_rule field next ∷ []) field next
rule_at-append [] field next h =
    let e : (field === field) ≡ true = ground (arith, same_field_iff field field) in
    rw e (new_rule field next, refl, refl, refl)
rule_at-append (r ∷ rs) field next h = elim (Bool-cases (r.field === field)) [
  | inl e ↦ absurd (ground arith)
  | inr e ↦ elim (Option-cases (find_rule rs field)) [
    | inl f ↦ rw e (rule_at-append rs field next f)
    | inr (j, f) ↦ absurd (ground arith)
  ]
]

rule_at-patch_at :
    (ps : List PatternRule) (field : FilterField) (next : TextFilter) (i : ℕ)
    → find_rule ps field ≡ some i
    → NextRule (patch_at i next ps) field next
rule_at-patch_at [] field next i h = absurd (ground arith)
rule_at-patch_at (r ∷ rs) field next zero h = elim (Bool-cases (r.field === field)) [
  | inl e ↦ rw e (record r { text = next.text; exclude = next.exclude }, refl, refl, refl)
  | inr e ↦ absurd (ground (arith, Option-cases (find_rule rs field)))
]
rule_at-patch_at (r ∷ rs) field next (suc i) h = elim (Bool-cases (r.field === field)) [
  | inl e ↦ absurd (ground arith)
  | inr e ↦
      rw e (rule_at-patch_at rs field next i (ground (arith, Option-cases (find_rule rs field))))
]

rules_at-append :
    (ps : List PatternRule) (field other : FilterField) (next : TextFilter)
    → (field === other) ≡ false
    → rules_at (ps ++ new_rule field next ∷ []) other ≡ rules_at ps other
rules_at-append [] field other next h = ground arith
rules_at-append (r ∷ rs) field other next h = ground (arith, rules_at-append rs field other next)

rules_at-patch_at :
    (ps : List PatternRule) (field other : FilterField) (next : TextFilter) (i : ℕ)
    → (field === other) ≡ false
    → find_rule ps field ≡ some i
    → rules_at (patch_at i next ps) other ≡ rules_at ps other
rules_at-patch_at [] field other next i h f = refl
rules_at-patch_at (r ∷ rs) field other next zero h f =
    ground (arith, same_field_iff r.field field, Option-cases (find_rule rs field))
rules_at-patch_at (r ∷ rs) field other next (suc i) h f =
    ground (arith, rules_at-patch_at rs field other next i h, Option-cases (find_rule rs field))

rules_at-remove_at :
    (ps : List PatternRule) (field other : FilterField) (i : ℕ)
    → (field === other) ≡ false
    → find_rule ps field ≡ some i
    → rules_at (remove_at i ps) other ≡ rules_at ps other
rules_at-remove_at [] field other i h f = refl
rules_at-remove_at (r ∷ rs) field other zero h f =
    ground (arith, same_field_iff r.field field, Option-cases (find_rule rs field))
rules_at-remove_at (r ∷ rs) field other (suc i) h f =
    ground (arith, rules_at-remove_at rs field other i h, Option-cases (find_rule rs field))

-- What is typed into the line of a field, if it is not blank, is what the line shows afterwards.
pub first_rule-set_first_rule :
    (f : XlogFilterState) (field : FilterField) (next : TextFilter)
    → is_blank next.text ≡ false
    → let shown = first_rule (record f { patterns = set_first_rule f field next }) field in
      (shown.text ≡ next.text) × (shown.exclude ≡ next.exclude)
unfolding first_rule set_first_rule
first_rule-set_first_rule f field next h = elim (Option-cases (find_rule f.patterns field)) [
  | inl e ↦
      let (r, g, t, x) = rule_at-append f.patterns field next e in
      rw (set_first_rule, e, h, first_rule, g) (t, x)
  | inr (i, e) ↦
      let (r, g, t, x) = rule_at-patch_at f.patterns field next i e in
      rw (set_first_rule, e, h, first_rule, g) (t, x)
]

-- An edit of one field's line, to a blank one too, leaves the rules of the other field as they were.
pub rules_of-set_first_rule :
    (f : XlogFilterState) (field other : FilterField) (next : TextFilter)
    → field ≢ other
    → rules_of (record f { patterns = set_first_rule f field next }) other ≡ rules_of f other
unfolding rules_of set_first_rule
rules_of-set_first_rule f field other next ne =
    let e : (field === other) ≡ false = ground (arith, same_field_iff field other) in
    elim (Bool-cases (is_blank next.text)) [
      | inl b ↦ elim (Option-cases (find_rule f.patterns field)) [
        | inl g ↦ rw (rules_of, set_first_rule, g, b) refl
        | inr (i, g) ↦
            rw (rules_of, set_first_rule, g, b) (rules_at-remove_at f.patterns field other i e g)
      ]
      | inr b ↦ elim (Option-cases (find_rule f.patterns field)) [
        | inl g ↦
            rw (rules_of, set_first_rule, g, b) (rules_at-append f.patterns field other next e)
        | inr (i, g) ↦
            rw (rules_of, set_first_rule, g, b)
              (rules_at-patch_at f.patterns field other next i e g)
      ]
    ]
