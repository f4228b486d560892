-- ===== src/Filter.antt =====
-- engine/rectSelect.ts and the filter helpers of features/xlog/types/xlog.ts: which transactions a
-- chart shows. `lower` stands for `toLowerCase`; `service_name` is the dictionary of service names.
pub mod Rules
pub mod Patterns
mod Tests
use nscouter.Base.Sets.{add, has}
use nscouter.Base.{
  ltb, leb, length, Eq, ℕ, zero, suc, Bool, true, false, not, Option, none, some, List, [], arith,
  ◌≡◌, ◌↔◌, ◌&&◌, ◌||◌, ◌∷◌, ◌++◌, ◌==◌, ◌===◌, if◌then◌else◌, nat_eq, list_eq,
}
use nscouter.Base.Text.{Text, trim, starts_with}
use nscouter.Xlog.{SXlog, FilterField, service, ip, PatternRule, XlogFilterState}

pub record TextFilter : Type 0 where
  pub text : Text
  pub exclude : Bool

-- `===` on the two fields.
abbrev same_field : FilterField → FilterField → Bool
same_field service service = true
same_field service ip = false
same_field ip service = false
same_field ip ip = true

pub same_field_iff : (a b : FilterField) → (same_field a b ≡ true) ↔ (a ≡ b)
same_field_iff service service = ground arith
same_field_iff service ip = ground arith
same_field_iff ip service = ground arith
same_field_iff ip ip = ground arith

instance abbrev pub field_eq : Eq FilterField
field_eq = record { beq = same_field; beq_iff = same_field_iff }

abbrev pub is_blank : Text → Bool
is_blank s = trim s === []

-- `value.includes(needle)`.
pub includes : Text → Text → Bool
includes [] needle = needle === []
includes (c ∷ s) needle = starts_with (c ∷ s) needle || includes s needle

-- `some(r => r.text.trim() !== '')`.
abbrev pub any_rule : List PatternRule → Bool
any_rule [] = false
any_rule (r ∷ rs) = not (is_blank r.text) || any_rule rs

unfoldable pub has_active_filter : XlogFilterState → Bool
has_active_filter f =
    f.error_only || ltb 0 f.elapsed_ms || any_rule f.patterns || ltb 0 (length f.obj_hash_set)

abbrev pub rules_at : List PatternRule → FilterField → List PatternRule
rules_at [] field = []
rules_at (r ∷ rs) field = if r.field === field then r ∷ rules_at rs field else rules_at rs field

unfoldable pub rules_of : XlogFilterState → FilterField → List PatternRule
rules_of f field = rules_at f.patterns field

-- `patterns.findIndex(r => r.field === field)`.
abbrev pub find_rule : List PatternRule → FilterField → Option ℕ
find_rule [] field = none
find_rule (r ∷ rs) field =
    if r.field === field
    then some 0
    else elim (find_rule rs field) [ none ↦ none | some i ↦ some (suc i) ]

-- `patterns.filter((_, i) => i !== idx)`.
abbrev pub remove_at : ℕ → List PatternRule → List PatternRule
remove_at i [] = []
remove_at zero (r ∷ rs) = rs
remove_at (suc i) (r ∷ rs) = r ∷ remove_at i rs

-- `patterns.map((r, i) => (i === idx ? { ...r, ...next } : r))`.
abbrev pub patch_at : ℕ → TextFilter → List PatternRule → List PatternRule
patch_at i next [] = []
patch_at zero next (r ∷ rs) = record r { text = next.text; exclude = next.exclude } ∷ rs
patch_at (suc i) next (r ∷ rs) = r ∷ patch_at i next rs

abbrev pub new_rule : FilterField → TextFilter → PatternRule
new_rule field next = record { field = field; text = next.text; exclude = next.exclude }

unfoldable pub set_first_rule : XlogFilterState → FilterField → TextFilter → List PatternRule
set_first_rule f field next = elim (find_rule f.patterns field) [
  | none ↦ if is_blank next.text then f.patterns else f.patterns ++ new_rule field next ∷ []
  | some idx ↦ if is_blank next.text then remove_at idx f.patterns else patch_at idx next f.patterns
]

-- `patterns.find(r => r.field === field)`.
abbrev pub rule_at : List PatternRule → FilterField → Option PatternRule
rule_at [] field = none
rule_at (r ∷ rs) field = if r.field === field then some r else rule_at rs field

unfoldable pub first_rule : XlogFilterState → FilterField → TextFilter
first_rule f field = elim (rule_at f.patterns field) [
  | none ↦ record { text = []; exclude = false }
  | some r ↦ record { text = r.text; exclude = r.exclude }
]

-- `new Set(patterns.filter(r => r.text.trim() !== '').map(r => r.field))`.
abbrev pub fields_from : List FilterField → List PatternRule → List FilterField
fields_from seen [] = seen
fields_from seen (r ∷ rs) = fields_from (if is_blank r.text then seen else add seen r.field) rs

abbrev pub written_at : List PatternRule → FilterField → List PatternRule
written_at [] field = []
written_at (r ∷ rs) field =
    if (r.field === field) && not (is_blank r.text)
    then r ∷ written_at rs field
    else written_at rs field

-- `rules.filter(r => r.exclude)`, and the rest.
abbrev pub rules_that : Bool → List PatternRule → List PatternRule
rules_that exclude [] = []
rules_that exclude (r ∷ rs) =
    if (if exclude then r.exclude else not r.exclude)
    then r ∷ rules_that exclude rs
    else rules_that exclude rs

module _ (lower : Text → Text) where
  unfoldable pub matches_text : Text → TextFilter → Bool
  matches_text value cond =
      let needle = lower (trim cond.text) in
      let hit = includes (lower value) needle in
      if needle === [] then true else if cond.exclude then not hit else hit

  -- `value` is in lower case.
  abbrev pub hits : Text → PatternRule → Bool
  hits value r = includes value (lower (trim r.text))

  abbrev pub any_hits : Text → List PatternRule → Bool
  any_hits value [] = false
  any_hits value (r ∷ rs) = hits value r || any_hits value rs

  -- One round of the loop.
  abbrev pub passes_field : Text → List PatternRule → Bool
  passes_field value rules =
      let included = rules_that false rules in
      if any_hits value (rules_that true rules)
      then false
      else if ltb 0 (length included) && not (any_hits value included)
      then false
      else true

  abbrev pub passes_fields : List PatternRule → (FilterField → Text) → List FilterField → Bool
  passes_fields patterns value_of [] = true
  passes_fields patterns value_of (field ∷ fields) =
      passes_field (lower (value_of field)) (written_at patterns field)
      && passes_fields patterns value_of fields

  unfoldable pub passes_patterns : List PatternRule → (FilterField → Text) → Bool
  passes_patterns patterns value_of = passes_fields patterns value_of (fields_from [] patterns)

  -- `serviceName?.(xlog.service) ?? ''`, or the address.
  abbrev pub value_at : (ℕ → Option Text) → SXlog → FilterField → Text
  value_at service_name xlog service = elim (service_name xlog.service) [ none ↦ [] | some t ↦ t ]
  value_at service_name xlog ip = xlog.ip_addr

  abbrev pub passes_elapsed : SXlog → XlogFilterState → Bool
  passes_elapsed xlog filter =
      if ltb 0 filter.elapsed_ms
      then (if filter.elapsed_exclude
          then ltb xlog.elapsed filter.elapsed_ms
          else leb filter.elapsed_ms xlog.elapsed)
      else true

  unfoldable pub passes_filter : SXlog → XlogFilterState → (ℕ → Option Text) → Bool
  passes_filter xlog filter service_name =
      if filter.error_only && (xlog.error == 0)
      then false
      else if not (passes_elapsed xlog filter)
      then false
      else if ltb 0 (length filter.obj_hash_set) && not (has filter.obj_hash_set xlog.obj_hash)
      then false
      else passes_patterns filter.patterns (value_at service_name xlog)
