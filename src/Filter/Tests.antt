-- ===== src/Filter/Tests.antt =====
-- Filters on small data, with the lower case of ASCII letters.
use nscouter.Base.Sets.{add}
use nscouter.Filter.Patterns.{allowed, passes_patterns-allowed}
use nscouter.Base.Text.{Text, text, trim}
use nscouter.Base.{
  leb, ℕ, refl, true, false, Option, none, List, [], arith, ◌+◌, ◌≡◌, ◌≢◌, ◌&&◌, ◌∷◌, if◌then◌else◌,
  nat_eq, list_eq,
}
use nscouter.Filter.{
  field_eq, Text, PatternRule, FilterField, passes_patterns, XlogFilterState, TextFilter, trim,
  SXlog, has_active_filter, includes, is_blank,
}
use nscouter.Xlog.{service, ip, default_filter}

abbrev ascii_lower : Text → Text
ascii_lower [] = []
ascii_lower (c ∷ s) = (if leb b'A' c && leb c b'Z' then c + 32 else c) ∷ ascii_lower s

-- These two URLs, but not the health check, from one address range.
abbrev rules : List PatternRule
rules =
    record { field = service; text = text " /Order "; exclude = false }
    ∷ record { field = service; text = text "health"; exclude = true }
    ∷ record { field = ip; text = text "10.1."; exclude = false }
    ∷ record { field = service; text = text " "; exclude = true }
    ∷ record { field = service; text = text "/pay"; exclude = false }
    ∷ []

abbrev value : FilterField → Text
value service = text "/api/ORDER/1"
value ip = text "10.1.0.7"

abbrev other_value : FilterField → Text
other_value service = text "/order/health"
other_value ip = text "10.1.0.7"

passed : passes_patterns ascii_lower rules value ≡ true
unfolding passes_patterns includes trim add
passed = refl

not_passed : passes_patterns ascii_lower rules other_value ≡ false
unfolding passes_patterns includes trim add
not_passed = refl

abbrev with_rules : XlogFilterState
with_rules = record default_filter { patterns = rules }

abbrev next_rule : TextFilter
next_rule = record { text = text "/cart"; exclude = true }

not_blank : is_blank next_rule.text ≡ false
unfolding trim
not_blank = refl

apart_fields : service ≢ ip
apart_fields e = absurd (ground arith)

abbrev slow : SXlog
slow = record {
  txid = [];
  gxid = [];
  caller = [];
  end_time = 1_000;
  elapsed = 30_000;
  obj_hash = 1;
  service = 255;
  error = 0;
  x_type = 0;
  cpu = 1;
  sql_count = 2;
  sql_time = 30;
  api_call_count = 0;
  api_call_time = 0;
  ip_addr = [];
  alloc_k_bytes = 64;
  thread_name_hash = 0;
}

abbrev no_name : ℕ → Option Text
no_name hash = none

inactive : has_active_filter default_filter ≡ false
unfolding has_active_filter
inactive = refl

passes_patterns-allowed_example :
    passes_patterns ascii_lower rules value
    ≡ (allowed ascii_lower value rules service && allowed ascii_lower value rules ip)
passes_patterns-allowed_example = passes_patterns-allowed ascii_lower rules value
