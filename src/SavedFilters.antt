-- ===== src/SavedFilters.antt =====
-- features/xlog/components/savedFilters.ts: filter conditions kept under a name. An entry of the file
-- comes parsed: a field that must be a string is `none` where it is none, and a flag says whether it is
-- `true`.
pub mod Loaded
mod Tests
use nscouter.Base.Sets.{has, add}
use nscouter.Base.Numbers.{Number, milli, round, not_finite}
use nscouter.Base.Text.{Text, trim}
use nscouter.Base.{
  ltb, length, ℕ, Bool, true, false, not, Option, none, some, List, [], ◌&&◌, ◌||◌, ◌∷◌, ◌++◌, ◌==◌,
  ◌===◌, if◌then◌else◌, nat_eq, list_eq,
}
use nscouter.Base.Int.{pos, negsuc}
use nscouter.Xlog.{PatternRule, XlogFilterState, FilterField}

pub record SavedFilter : Type 0 where
  pub name : Text
  pub patterns : List PatternRule
  pub error_only : Bool
  pub elapsed_ms : ℕ
  pub elapsed_exclude : Bool

abbrev pub blank_text : Text → Bool
blank_text s = trim s === []

-- `patterns.filter(r => r.text.trim() !== '')`.
abbrev pub filled_rules : List PatternRule → List PatternRule
filled_rules [] = []
filled_rules (r ∷ rs) = if blank_text r.text then filled_rules rs else r ∷ filled_rules rs

unfoldable pub from_filter : Text → XlogFilterState → SavedFilter
from_filter name filter = record {
  name = trim name;
  patterns = filled_rules filter.patterns;
  error_only = filter.error_only;
  elapsed_ms = filter.elapsed_ms;
  elapsed_exclude = filter.elapsed_exclude;
}

-- The filter with the fields of `toPatch` put in.
unfoldable pub to_patch : SavedFilter → XlogFilterState → XlogFilterState
to_patch saved filter = record filter {
  patterns = saved.patterns;
  error_only = saved.error_only;
  elapsed_ms = saved.elapsed_ms;
  elapsed_exclude = saved.elapsed_exclude;
}

pub record RawRule : Type 0 where
  pub field : Option FilterField
  pub text : Option Text
  pub exclude : Bool

pub record RawFilter : Type 0 where
  pub name : Option Text
  pub patterns : Option (List (Option RawRule))
  pub error_only : Bool
  pub elapsed_ms : Number
  pub elapsed_exclude : Bool

abbrev pub or_blank : Option Text → Text
or_blank none = []
or_blank (some s) = s

-- A rule of the file that is kept: one with a known field and a text.
abbrev pub rule_of : Option RawRule → List PatternRule
rule_of none = []
rule_of (some r) = elim r.field [
  | none ↦ []
  | some field ↦
      if blank_text (or_blank r.text)
      then []
      else record { field = field; text = or_blank r.text; exclude = r.exclude } ∷ []
]

unfoldable pub saved_rules : List (Option RawRule) → List PatternRule
saved_rules [] = []
saved_rules (r ∷ rs) = rule_of r ++ saved_rules rs

abbrev pub or_no_rules : Option (List (Option RawRule)) → List (Option RawRule)
or_no_rules none = []
or_no_rules (some rs) = rs

-- `Number.isFinite(elapsed) && elapsed > 0 ? Math.round(elapsed) : 0`.
abbrev pub elapsed_of : Number → ℕ
elapsed_of (milli (pos m)) = if ltb 0 m then round m else 0
elapsed_of (milli (negsuc m)) = 0
elapsed_of not_finite = 0

abbrev pub filter_of : RawFilter → SavedFilter
filter_of r = record {
  name = trim (or_blank r.name);
  patterns = saved_rules (or_no_rules r.patterns);
  error_only = r.error_only;
  elapsed_ms = elapsed_of r.elapsed_ms;
  elapsed_exclude = r.elapsed_exclude;
}

-- The loop of `normalize`; `none` is an entry that is not an object.
unfoldable pub normalize_entries : List Text → List (Option RawFilter) → List SavedFilter
normalize_entries used [] = []
normalize_entries used (none ∷ rs) = normalize_entries used rs
normalize_entries used (some r ∷ rs) =
    let name = trim (or_blank r.name) in
    elim ((name === []) || has used name) [
      | true ↦ normalize_entries used rs
      | false ↦ filter_of r ∷ normalize_entries (add used name) rs
    ]

-- `none`: the file holds something that is not an array.
unfoldable pub normalize_filters : Option (List (Option RawFilter)) → List SavedFilter
normalize_filters none = []
normalize_filters (some rs) = normalize_entries [] rs

abbrev pub has_name : List SavedFilter → Text → Bool
has_name [] name = false
has_name (f ∷ fs) name = (f.name === name) || has_name fs name

-- The first one of the name is replaced.
abbrev pub replace_named : SavedFilter → List SavedFilter → List SavedFilter
replace_named entry [] = []
replace_named entry (f ∷ fs) =
    if f.name === entry.name then entry ∷ fs else f ∷ replace_named entry fs

unfoldable pub upsert_filter : List SavedFilter → SavedFilter → List SavedFilter
upsert_filter list entry =
    if entry.name === []
    then list
    else if has_name list entry.name
    then replace_named entry list
    else list ++ entry ∷ []

unfoldable pub remove_filter : List SavedFilter → Text → List SavedFilter
remove_filter [] name = []
remove_filter (f ∷ fs) name =
    let rest = remove_filter fs name in if f.name === name then rest else f ∷ rest

unfoldable pub same_kind : FilterField → FilterField → Bool
same_kind FilterField.service FilterField.service = true
same_kind FilterField.ip FilterField.ip = true
same_kind f g = false

abbrev pub same_flag : Bool → Bool → Bool
same_flag true b = b
same_flag false b = not b

abbrev pub same_rule : PatternRule → PatternRule → Bool
same_rule r b = same_kind r.field b.field && (r.text === b.text) && same_flag r.exclude b.exclude

-- `now.patterns.every(...)`; the lists have the same length.
abbrev pub every_same : List PatternRule → List PatternRule → Bool
every_same [] bs = true
every_same (r ∷ rs) [] = false
every_same (r ∷ rs) (b ∷ bs) = same_rule r b && every_same rs bs

unfoldable pub is_same : SavedFilter → XlogFilterState → Bool
is_same saved filter =
    let now = from_filter saved.name filter in
    same_flag now.error_only saved.error_only
    && (now.elapsed_ms == saved.elapsed_ms)
    && same_flag now.elapsed_exclude saved.elapsed_exclude
    && (length now.patterns == length saved.patterns)
    && every_same now.patterns saved.patterns
