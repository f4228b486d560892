-- ===== src/SavedFilters/Tests.antt =====
-- A filter that is saved, and a file with a name twice.
use nscouter.Filter.{passes_filter}
use nscouter.Base.Sorts.{All}
use nscouter.Base.Int.{pos}
use nscouter.Base.Numbers.{milli}
use nscouter.SavedFilters.Loaded.{
  filter_names, from_filter-to_patch, Usable, normalize_filters-Usable,
}
use nscouter.Base.Sets.{Distinct, add}
use nscouter.Xlog.{ip, service, SXlog}
use nscouter.SavedFilters.{
  PatternRule, is_same, Text, RawFilter, normalize_filters, XlogFilterState, from_filter,
  normalize_entries, to_patch, remove_filter, upsert_filter,
}
use nscouter.Base.{ℕ, refl, true, false, Option, none, some, List, [], ◌≡◌, ◌∷◌, nat_eq, list_eq}
use nscouter.Base.Text.{text, trim, trim_start, is_space}

abbrev filter_with : ℕ → List ℕ → List PatternRule → XlogFilterState
filter_with ms servers rules = record {
  elapsed_ms = ms;
  elapsed_exclude = false;
  error_only = true;
  obj_hash_set = servers;
  patterns = rules;
}

abbrev pay : PatternRule
pay = record { field = service; text = text "pay"; exclude = false }

abbrev blank : PatternRule
blank = record { field = ip; text = text " "; exclude = true }

abbrev saved_from : XlogFilterState
saved_from = filter_with 3000 (1 ∷ []) (pay ∷ blank ∷ [])

abbrev loaded_over : XlogFilterState
loaded_over = filter_with 0 (2 ∷ []) []

abbrev slow : SXlog
slow = record {
  txid = 1 ∷ [];
  gxid = [];
  caller = [];
  end_time = 5000;
  elapsed = 4000;
  obj_hash = 2;
  service = 7;
  error = 1;
  x_type = 0;
  cpu = 0;
  sql_count = 0;
  sql_time = 0;
  api_call_count = 0;
  api_call_time = 0;
  ip_addr = [];
  alloc_k_bytes = 0;
  thread_name_hash = 0;
}

from_filter-to_patch_example :
    (passes_filter
        (λ s. s)
        slow
        (to_patch (from_filter (text "a") saved_from) loaded_over)
        (λ h. some (text "/pay"))
      ≡ passes_filter
          (λ s. s)
          slow
          (record saved_from { obj_hash_set = 2 ∷ [] })
          (λ h. some (text "/pay")))
    × (is_same
          (from_filter (text "a") saved_from)
          (to_patch (from_filter (text "a") saved_from) loaded_over)
        ≡ true)
from_filter-to_patch_example =
    from_filter-to_patch (λ s. s) (text "a") saved_from loaded_over slow (λ h. some (text "/pay"))

abbrev of_file : Text → Option RawFilter
of_file name = some (record {
  name = some name;
  patterns =
      some (
        none ∷ some (record { field = some service; text = some (text "x"); exclude = true }) ∷ []);
  error_only = false;
  elapsed_ms = milli (pos 1500);
  elapsed_exclude = false;
})

abbrev file : Option (List (Option RawFilter))
file = some (of_file (text " a ") ∷ none ∷ of_file (text "a") ∷ of_file [] ∷ [])

read : filter_names (normalize_filters file) ≡ text "a" ∷ []
unfolding normalize_filters normalize_entries trim trim_start is_space add
read = refl

normalize_filters-Usable_example :
    Distinct (filter_names (normalize_filters file)) × All Usable (normalize_filters file)
normalize_filters-Usable_example = normalize_filters-Usable file

saved_over :
    filter_names
      (upsert_filter (normalize_filters file) (from_filter (text "a") (filter_with 0 [] [])))
    ≡ text "a" ∷ []
unfolding normalize_filters normalize_entries trim trim_start is_space add upsert_filter from_filter
saved_over = refl

taken_out : remove_filter (normalize_filters file) (text "a") ≡ []
unfolding normalize_filters normalize_entries trim trim_start is_space add remove_filter
taken_out = refl
