-- ===== src/Store/Tests.antt =====
-- Runs of the store on small data.
use nscouter.Base.Int.{pos}
use nscouter.Base.Numbers.{milli}
use nscouter.Store.Lists.{last_n}
use nscouter.Store.{
  clamp_max_items, prune, oldest_end_time_of, create, Store, prune_cap, keep_recent, add_history,
  oldest_of_from, prune_time, add_batch, skip_old,
}
use nscouter.Xlog.{SXlog}
use nscouter.Base.{
  ℕ, refl, inr, true, false, none, some, List, [], arith, ◌≡◌, ◌∷◌, nat_eq, list_eq,
}
use nscouter.Store.Prune.{IsOrdered}
use nscouter.Store.Reach.{Reach-prune, Reach, next, here, batches, histories}

abbrev xlog_of : ℕ → ℕ → SXlog
xlog_of hash end = record {
  txid = [];
  gxid = [];
  caller = [];
  end_time = end;
  elapsed = 120;
  obj_hash = hash;
  service = 7;
  error = 0;
  x_type = 0;
  cpu = 1;
  sql_count = 2;
  sql_time = 30;
  api_call_count = 0;
  api_call_time = 0;
  ip_addr = [];
  alloc_k_bytes = 64;
  thread_name_hash = 0;
}

-- Two late answers of a backfill stand behind newer items of the stream.
abbrev mixed : Store
mixed = record {
  items = xlog_of 1 900 ∷ xlog_of 2 1000 ∷ xlog_of 1 300 ∷ xlog_of 2 800 ∷ [];
  max_items = 2;
  dirty = false;
  last_received = some 1001;
  skew_ms = none;
  dropped_by_cap = 5;
  last_drop_at = none;
  has_history = true;
}

-- The same with no history, in order.
abbrev ordered : Store
ordered = record mixed {
  items = xlog_of 1 300 ∷ xlog_of 2 800 ∷ xlog_of 1 900 ∷ xlog_of 2 1000 ∷ [];
  has_history = false;
}

pruned_mixed : (prune mixed 1100 500).items ≡ xlog_of 2 1000 ∷ xlog_of 2 800 ∷ []
unfolding prune prune_cap prune_time
pruned_mixed = refl

pruned_ordered : (prune ordered 1100 500).dropped_by_cap ≡ 6
unfolding prune prune_cap prune_time skip_old
pruned_ordered = refl

oldest_of_first : oldest_end_time_of mixed (1 ∷ []) ≡ some 300
unfolding oldest_end_time_of oldest_of_from
oldest_of_first = refl

clamped : clamp_max_items (milli (pos 9_999_500)) ≡ 10_000
unfolding clamp_max_items
clamped = refl

abbrev batch : List SXlog
batch = xlog_of 1 300 ∷ xlog_of 2 800 ∷ []

abbrev late : List SXlog
late = xlog_of 3 100 ∷ []

abbrev reached : Store
reached = add_history (add_batch (create (milli (pos 20_000_000))) batch 850) late

two_calls : Reach (create (milli (pos 20_000_000))) reached
unfolding create
two_calls = next (next here (batches 0 batch 850 tt (ground arith) (ground arith))) (histories late)

Reach-prune_example :
    ((prune reached 1000 400).items ≡ last_n reached.max_items (keep_recent 1000 400 reached.items))
    × IsOrdered (prune reached 1000 400)
Reach-prune_example = Reach-prune (milli (pos 20_000_000)) 1000 400 two_calls

ordered-IsOrdered : IsOrdered ordered
ordered-IsOrdered = inr (ground arith)
