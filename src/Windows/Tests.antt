-- ===== src/Windows/Tests.antt =====
-- Two windows, one of which was closed.
use nscouter.Windows.Labels.{next_label-fresh, exact_limit, Exact}
use nscouter.Base.Sets.{has}
use nscouter.Windows.{
  from_config, bounds_of, WindowPrefs, from_entries, pos, is_window_label, to_config, next_label,
  upsert_window, max_number, remove_window,
}
use nscouter.Base.{
  ltb, ℕ, refl, ap, inr, false, Option, none, some, List, [], arith, ◌+◌, ◌<◌, ◌≡◌, ◌∷◌, ◌++◌,
  if◌then◌else◌, nat_eq, list_eq,
}
use nscouter.Base.Digits.{value_from, value_from-decimal}
use nscouter.Base.Maps.{get, set, keys}
use nscouter.Base.Text.{text, decimal, digits_from, Text}

abbrev window : Text → WindowPrefs ℕ ℕ
window label = record {
  label = label;
  tabs = 1 ∷ [];
  split = 0;
  x = pos 5;
  y = pos 6;
  width = 700;
  height = 0;
}

abbrev open_windows : List (Text × WindowPrefs ℕ ℕ)
open_windows = from_config (
    some (
      some (window (text "xlogwin-2"))
      ∷ none
      ∷ some (window (text "other"))
      ∷ some (window (text "xlogwin-2"))
      ∷ []))

one_left : to_config open_windows ≡ window (text "xlogwin-2") ∷ []
unfolding from_config from_entries is_window_label set
one_left = refl

abbrev number : Text → Option ℕ
number s = some (value_from 0 s)

-- A sum that is too great for a double is taken as the limit.
abbrev plus_one : ℕ → ℕ
plus_one n = if ltb n exact_limit then n + 1 else exact_limit

plus_one-exact : (n : ℕ) → n < exact_limit → plus_one n ≡ n + 1
plus_one-exact n h = ground (arith, h)

below_limit : Exact number (keys open_windows ++ text "xlogwin-9" ∷ [])
unfolding from_config from_entries is_window_label set
below_limit = (inr (2, refl, omega arith), (inr (9, refl, omega arith), tt))

tenth : next_label number plus_one open_windows (text "xlogwin-9" ∷ []) ≡ text "xlogwin-10"
unfolding from_config from_entries is_window_label set next_label max_number decimal digits_from
tenth = refl

moved :
    to_config (upsert_window open_windows (text "xlogwin-2") (3 ∷ []) 1 none)
    ≡ record (window (text "xlogwin-2")) { tabs = 3 ∷ []; split = 1 } ∷ []
unfolding from_config from_entries is_window_label set get upsert_window
moved = refl

no_size : bounds_of (window (text "xlogwin-2")) ≡ none
unfolding bounds_of
no_size = refl

closed : remove_window open_windows (text "xlogwin-2") ≡ []
unfolding from_config from_entries is_window_label set remove_window
closed = refl

next_label-fresh_example :
    (has (keys open_windows) (next_label number plus_one open_windows (text "xlogwin-9" ∷ []))
      ≡ false)
    × (has (text "xlogwin-9" ∷ []) (next_label number plus_one open_windows (text "xlogwin-9" ∷ []))
        ≡ false)
next_label-fresh_example =
    next_label-fresh number plus_one open_windows (text "xlogwin-9" ∷ [])
      (λ n l. ap (λ m. some m) (value_from-decimal n)) plus_one-exact below_limit
