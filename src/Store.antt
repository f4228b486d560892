-- ===== src/Store.antt =====
-- features/xlog/store/XLogDataStore.ts: the buffer of transactions behind a chart. A getter is a
-- field of the record; `receivedAt` and `now` are arguments.
pub mod Lists
pub mod Prune
pub mod Reach
pub mod Oldest
mod Tests
use nscouter.Base.{
  ltb, length, drop, ℕ, min, max, Bool, true, false, Option, none, some, List, [], ◌+◌, ◌-◌, ◌||◌,
  ◌∷◌, ◌++◌, ◌==◌, if◌then◌else◌, nat_eq, list_eq,
}
use nscouter.Base.Int.{ℤ, pos, negsuc, sub_ℕ}
use nscouter.Base.Numbers.{Number, milli, not_finite, round}
use nscouter.Base.Sets.{has}
use nscouter.Xlog.{SXlog}

abbrev pub default_max_items : ℕ
default_max_items = 100_000

abbrev pub min_max_items : ℕ
min_max_items = 10_000

abbrev pub limit_max_items : ℕ
limit_max_items = 1_000_000

-- The argument is what `Number(v)` gives.
unfoldable pub clamp_max_items : Number → ℕ
unfolding round
clamp_max_items (milli (pos m)) =
    if m == 0 then default_max_items else min (max (round m) min_max_items) limit_max_items
clamp_max_items (milli (negsuc m)) = default_max_items
clamp_max_items not_finite = default_max_items

pub record Store : Type 0 where
  pub items : List SXlog
  pub max_items : ℕ
  pub dirty : Bool
  pub last_received : Option ℕ
  pub skew_ms : Option ℤ
  pub dropped_by_cap : ℕ
  pub last_drop_at : Option ℕ
  pub has_history : Bool

unfoldable pub create : Number → Store
create max_items = record {
  items = [];
  max_items = clamp_max_items max_items;
  dirty = false;
  last_received = none;
  skew_ms = none;
  dropped_by_cap = 0;
  last_drop_at = none;
  has_history = false;
}

pub set_max_items : Store → Number → Store
set_max_items s v = record s { max_items = clamp_max_items v }

pub reset_clock_skew : Store → Store
reset_clock_skew s = record s { skew_ms = none }

pub add : Store → SXlog → ℕ → Store
add s x received_at = record s {
  items = s.items ++ x ∷ [];
  dirty = true;
  last_received = some received_at;
  skew_ms = some (sub_ℕ x.end_time received_at);
}

-- The loop's `newest`.
pub newest_from : ℕ → List SXlog → ℕ
newest_from newest [] = newest
newest_from newest (x ∷ xs) = newest_from (if ltb newest x.end_time then x.end_time else newest) xs

pub add_batch : Store → List SXlog → ℕ → Store
add_batch s [] received_at = s
add_batch s (x ∷ xs) received_at = record s {
  items = s.items ++ x ∷ xs;
  dirty = true;
  last_received = some received_at;
  skew_ms = some (sub_ℕ (newest_from 0 (x ∷ xs)) received_at);
}

pub add_history : Store → List SXlog → Store
add_history s [] = s
add_history s (x ∷ xs) = record s { items = s.items ++ x ∷ xs; has_history = true; dirty = true }

-- `x.endTime < now - timeRangeMs`, with no subtraction.
abbrev pub is_old : ℕ → ℕ → SXlog → Bool
is_old now range x = ltb (x.end_time + range) now

abbrev pub some_old : ℕ → ℕ → List SXlog → Bool
some_old now range [] = false
some_old now range (x ∷ xs) = is_old now range x || some_old now range xs

-- `filter(x => x.endTime >= cutoff)`.
abbrev pub keep_recent : ℕ → ℕ → List SXlog → List SXlog
keep_recent now range [] = []
keep_recent now range (x ∷ xs) =
    if is_old now range x then keep_recent now range xs else x ∷ keep_recent now range xs

-- The scan from the front and the `slice`.
pub skip_old : ℕ → ℕ → List SXlog → List SXlog
skip_old now range [] = []
skip_old now range (x ∷ xs) = if is_old now range x then skip_old now range xs else x ∷ xs

pub prune_time : Bool → ℕ → ℕ → List SXlog → List SXlog
prune_time true now range xs = if some_old now range xs then keep_recent now range xs else xs
prune_time false now range xs = skip_old now range xs

pub prune_cap : Store → ℕ → List SXlog → Store
prune_cap s now xs =
    if ltb s.max_items (length xs)
    then record s {
      items = drop (length xs - s.max_items) xs;
      dropped_by_cap = s.dropped_by_cap + (length xs - s.max_items);
      last_drop_at = some now;
    }
    else record s { items = xs }

pub prune : Store → ℕ → ℕ → Store
prune s now range =
    let t = prune_cap s now (prune_time s.has_history now range s.items) in
    if length t.items == length s.items then t else record t { dirty = true }

abbrev earlier : Option ℕ → ℕ → Option ℕ
earlier none t = some t
earlier (some oldest) t = if ltb t oldest then some t else some oldest

pub oldest_from : Option ℕ → List SXlog → Option ℕ
oldest_from oldest [] = oldest
oldest_from oldest (x ∷ xs) = oldest_from (earlier oldest x.end_time) xs

pub oldest_end_time : Store → Option ℕ
oldest_end_time s = oldest_from none s.items

pub oldest_of_from : List ℕ → Option ℕ → List SXlog → Option ℕ
oldest_of_from hashes oldest [] = oldest
oldest_of_from hashes oldest (x ∷ xs) =
    oldest_of_from hashes (if has hashes x.obj_hash then earlier oldest x.end_time else oldest) xs

pub oldest_end_time_of : Store → List ℕ → Option ℕ
oldest_end_time_of s hashes = oldest_of_from hashes none s.items

pub clear_dirty : Store → Store
clear_dirty s = record s { dirty = false }

pub clear : Store → Store
clear s = record s { items = []; dirty = true; has_history = false }
