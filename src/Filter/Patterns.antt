-- ===== src/Filter/Patterns.antt =====
-- What passes the patterns, with no set of fields and no sorting of the rules.
use nscouter.Base.Sets.{has-add}
use nscouter.Base.{
  ltb, Bool-cases, length, ℕ, refl, inl, inr, Bool, true, false, not, Option, List, [], arith, ◌≡◌,
  ◌&&◌, ◌||◌, ◌∷◌, ◌===◌, nat_eq, list_eq,
}
use nscouter.Filter.{
  field_eq, passes_patterns, Text, FilterField, PatternRule, passes_filter, is_blank, any_hits,
  rules_that, passes_field, has, passes_fields, service, has_active_filter, hits, written_at,
  fields_from, ip, SXlog, XlogFilterState, add, any_rule,
}

module _ (lower : Text → Text) where
  -- An exclude rule of the field that is not blank hits the value.
  abbrev pub blocked : FilterField → Text → List PatternRule → Bool
  blocked field value [] = false
  blocked field value (r ∷ rs) =
      (r.field === field) && not (is_blank r.text) && r.exclude && hits lower value r
      || blocked field value rs

  -- The field has an include rule that is not blank.
  abbrev pub wanted : FilterField → List PatternRule → Bool
  wanted field [] = false
  wanted field (r ∷ rs) =
      (r.field === field) && not (is_blank r.text) && not r.exclude || wanted field rs

  -- One of these hits the value.
  abbrev pub found : FilterField → Text → List PatternRule → Bool
  found field value [] = false
  found field value (r ∷ rs) =
      (r.field === field) && not (is_blank r.text) && not r.exclude && hits lower value r
      || found field value rs

  abbrev pub allowed : (FilterField → Text) → List PatternRule → FilterField → Bool
  allowed value_of patterns field =
      let value = lower (value_of field) in
      not (blocked field value patterns)
      && (not (wanted field patterns) || found field value patterns)

  any_hits-excluded :
      (rs : List PatternRule) (field : FilterField) (value : Text)
      → any_hits lower value (rules_that true (written_at rs field)) ≡ blocked field value rs
  any_hits-excluded [] field value = refl
  any_hits-excluded (r ∷ rs) field value = ground (arith, any_hits-excluded rs field value)

  any_hits-included :
      (rs : List PatternRule) (field : FilterField) (value : Text)
      → any_hits lower value (rules_that false (written_at rs field)) ≡ found field value rs
  any_hits-included [] field value = refl
  any_hits-included (r ∷ rs) field value = ground (arith, any_hits-included rs field value)

  some_included :
      (rs : List PatternRule) (field : FilterField)
      → ltb 0 (length (rules_that false (written_at rs field))) ≡ wanted field rs
  some_included [] field = refl
  some_included (r ∷ rs) field = ground (arith, some_included rs field)

  passes_field-allowed :
      (rs : List PatternRule) (value_of : FilterField → Text) (field : FilterField)
      → passes_field lower (lower (value_of field)) (written_at rs field)
        ≡ allowed value_of rs field
  passes_field-allowed rs value_of field =
      let value = lower (value_of field) in
      rw
        (any_hits-excluded rs field value, any_hits-included rs field value, some_included rs field)
        (ground arith)

  fields_from_mono :
      (seen : List FilterField) (rs : List PatternRule) (field : FilterField)
      → has seen field ≡ true
      → has (fields_from seen rs) field ≡ true
  fields_from_mono seen [] field h = h
  fields_from_mono seen (r ∷ rs) field h = elim (Bool-cases (is_blank r.text)) [
    | inl e ↦ rw e (fields_from_mono seen rs field h)
    | inr e ↦
        rw e (
          fields_from_mono (add seen r.field) rs field (ground (arith, has-add seen r.field field)))
  ]

  -- A field with no rule allows every value.
  unwritten :
      (seen : List FilterField) (rs : List PatternRule) (field : FilterField) (value : Text)
      → has (fields_from seen rs) field ≡ false
      → (blocked field value rs ≡ false) × (wanted field rs ≡ false)
  unwritten seen [] field value h = (refl, refl)
  unwritten seen (r ∷ rs) field value h = elim (Bool-cases (is_blank r.text)) [
    | inl e ↦ ground (arith, unwritten seen rs field value (rw e at h))
    | inr e ↦
        let k = rw e at h in
        ground (
          arith,
          unwritten (add seen r.field) rs field value k,
          fields_from_mono (add seen r.field) rs field,
          has-add seen r.field field,
        )
  ]

  passes_fields-all :
      (rs : List PatternRule) (value_of : FilterField → Text) (fs : List FilterField)
      → passes_fields lower rs value_of fs ≡ (
          (not (has fs service) || allowed value_of rs service)
          && (not (has fs ip) || allowed value_of rs ip))
  passes_fields-all rs value_of [] = refl
  passes_fields-all rs value_of (service ∷ fs) =
      ground (arith, passes_fields-all rs value_of fs, passes_field-allowed rs value_of service)
  passes_fields-all rs value_of (ip ∷ fs) =
      ground (arith, passes_fields-all rs value_of fs, passes_field-allowed rs value_of ip)

  -- A value passes exactly if, in each field by itself, no exclude rule hits it, and one of the
  -- include rules does where there is one; blank rules count for nothing.
  pub passes_patterns-allowed :
      (patterns : List PatternRule) (value_of : FilterField → Text)
      → passes_patterns lower patterns value_of
        ≡ (allowed value_of patterns service && allowed value_of patterns ip)
  unfolding passes_patterns
  passes_patterns-allowed patterns value_of = ground (
    arith,
    passes_fields-all patterns value_of (fields_from [] patterns),
    unwritten [] patterns service (lower (value_of service)),
    unwritten [] patterns ip (lower (value_of ip)),
  )

  fields_from-blank :
      (seen : List FilterField) (rs : List PatternRule)
      → any_rule rs ≡ false
      → fields_from seen rs ≡ seen
  fields_from-blank seen [] h = refl
  fields_from-blank seen (r ∷ rs) h = ground (arith, fields_from-blank seen rs)

  -- When the screen says that no condition is set, every transaction passes.
  pub passes_filter-inactive :
      (xlog : SXlog) (filter : XlogFilterState) (service_name : ℕ → Option Text)
      → has_active_filter filter ≡ false
      → passes_filter lower xlog filter service_name ≡ true
  unfolding passes_filter passes_patterns has_active_filter
  passes_filter-inactive xlog filter service_name h =
      let e : fields_from [] filter.patterns ≡ [] =
        fields_from-blank [] filter.patterns (ground arith) in
      rw e (ground arith)
