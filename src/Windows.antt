-- ===== src/Windows.antt =====
-- features/xlog/detached/registry.ts: the windows that were taken off the main one, as the main one
-- keeps them. `T` is a tab, `S` a split. `plus_one` adds one to a double, and `Number` on the end of a label is a parameter, `none` where it
-- is not finite; labels end in digits, so that it is a natural number.
pub mod Labels
mod Tests
use nscouter.Base.Sets.{has}
use nscouter.Base.Text.{Text, starts_with, text, decimal}
use nscouter.Base.{
  ltb, leb, length, drop, ℕ, Bool, true, false, not, Option, none, some, List, [], ◌&&◌, ◌||◌, ◌∷◌,
  ◌++◌, ◌==◌, ◌===◌, if◌then◌else◌, nat_eq, list_eq,
}
use nscouter.Base.Maps.{get, set, keys}
use nscouter.Base.Int.{ℤ, pos}

pub record WindowPrefs (T : Type 0) (S : Type 0) : Type 0 where
  pub label : Text
  pub tabs : List T
  pub split : S
  pub x : ℤ
  pub y : ℤ
  pub width : ℕ
  pub height : ℕ

pub record WindowBounds : Type 0 where
  pub x : ℤ
  pub y : ℤ
  pub width : ℕ
  pub height : ℕ

abbrev pub digit_unit : ℕ → Bool
digit_unit c = leb b'0' c && leb c b'9'

abbrev pub all_digit_units : Text → Bool
all_digit_units [] = true
all_digit_units (c ∷ s) = digit_unit c && all_digit_units s

-- `/^xlogwin-\d+$/`.
unfoldable pub is_window_label : Text → Bool
is_window_label v =
    starts_with v (text "xlogwin-") && not (drop 8 v === []) && all_digit_units (drop 8 v)

-- The loop of `nextLabel`.
unfoldable pub max_number : (Text → Option ℕ) → ℕ → List Text → ℕ
max_number number best [] = best
max_number number best (l ∷ ls) =
    max_number number
      (elim (number (drop 8 l)) [ none ↦ best | some n ↦ if ltb best n then n else best ]) ls

module _ {T : Type 0} {S : Type 0} where
  unfoldable pub next_label :
      (Text → Option ℕ) → (ℕ → ℕ) → List (Text × WindowPrefs T S) → List Text → Text
  next_label number plus_one reg used =
      text "xlogwin-" ++ decimal (plus_one (max_number number 0 (keys reg ++ used)))

  -- The loop of `fromConfig`; `none` is an entry that is missing.
  unfoldable pub from_entries :
      List (Text × WindowPrefs T S)
      → List (Option (WindowPrefs T S))
      → List (Text × WindowPrefs T S)
  from_entries out [] = out
  from_entries out (none ∷ ws) = from_entries out ws
  from_entries out (some w ∷ ws) =
      elim (not (is_window_label w.label) || has (keys out) w.label || (length w.tabs == 0)) [
        | true ↦ from_entries out ws
        | false ↦ from_entries (set out w.label w) ws
      ]

  unfoldable pub from_config :
      Option (List (Option (WindowPrefs T S))) → List (Text × WindowPrefs T S)
  from_config none = []
  from_config (some ws) = from_entries [] ws

  abbrev pub to_config : List (Text × WindowPrefs T S) → List (WindowPrefs T S)
  to_config [] = []
  to_config ((l, w) ∷ reg) = w ∷ to_config reg

  -- `bounds ?? (prev ? {...} : null)`, with zeros for null.
  abbrev pub bounds_or : Option WindowBounds → Option (WindowPrefs T S) → WindowBounds
  bounds_or (some b) prev = b
  bounds_or none none = record { x = pos 0; y = pos 0; width = 0; height = 0 }
  bounds_or none (some w) = record { x = w.x; y = w.y; width = w.width; height = w.height }

  unfoldable pub upsert_window :
      List (Text × WindowPrefs T S)
      → Text
      → List T
      → S
      → Option WindowBounds
      → List (Text × WindowPrefs T S)
  upsert_window reg label tabs split bounds =
      let b = bounds_or bounds (get reg label) in
      set reg label (record {
        label = label;
        tabs = tabs;
        split = split;
        x = b.x;
        y = b.y;
        width = b.width;
        height = b.height;
      })

  unfoldable pub remove_window :
      List (Text × WindowPrefs T S) → Text → List (Text × WindowPrefs T S)
  remove_window [] label = []
  remove_window ((l, w) ∷ reg) label =
      let rest = remove_window reg label in if l === label then rest else (l, w) ∷ rest

  unfoldable pub bounds_of : WindowPrefs T S → Option WindowBounds
  bounds_of w =
      if ltb 0 w.width && ltb 0 w.height
      then some (record { x = w.x; y = w.y; width = w.width; height = w.height })
      else none
