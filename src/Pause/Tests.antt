-- ===== src/Pause/Tests.antt =====
-- A pause of the live window on small data.
use nscouter.Base.Int.{pos}
use nscouter.Xlog.{SXlog}
use nscouter.Store.Prune.{IsOrdered}
use nscouter.Store.{Store, prune, keep_recent}
use nscouter.Pause.{prune_range_ms, frozen_window, TimeWindow, arrived_while_paused, pause}
use nscouter.Base.{
  length, ℕ, refl, inr, true, false, none, some, [], arith, ◌≤◌, ◌≡◌, ◌∷◌, nat_eq, list_eq,
}
use nscouter.Pause.Window.{shown-prune, shown}

abbrev xlog_at : ℕ → SXlog
xlog_at end = record {
  txid = [];
  gxid = [];
  caller = [];
  end_time = end;
  elapsed = 120;
  obj_hash = 1;
  service = 7;
  error = 0;
  x_type = 0;
  cpu = 1;
  sql_count = 2;
  sql_time = 30;
  api_call_count = 0;
  api_call_time = 0;
  ip_addr = [];
  alloc_k_bytes = 64;
  thread_name_hash = 0;
}

-- Stopped at 1000 with a window of 300, and still collecting at 1200.
abbrev collecting : Store
collecting = record {
  items = xlog_at 650 ∷ xlog_at 700 ∷ xlog_at 950 ∷ xlog_at 1150 ∷ [];
  max_items = 10;
  dirty = true;
  last_received = some 1151;
  skew_ms = none;
  dropped_by_cap = 0;
  last_drop_at = none;
  has_history = false;
}

abbrev window : TimeWindow
window = record { start = pos 700; end = pos 1000 }

in_order : IsOrdered collecting
in_order = inr (ground arith)

window_lem : frozen_window (pause 1000 40) 300 ≡ some window
unfolding frozen_window pause
window_lem = refl

few_lem : length (keep_recent 1200 (prune_range_ms (pause 1000 40) 300 1200) collecting.items) ≤ 10
unfolding prune_range_ms pause
few_lem = ground arith

arrived : arrived_while_paused (pause 1000 40) 43 ≡ 3
unfolding arrived_while_paused pause
arrived = refl

shown-prune_example :
    shown window (prune collecting 1200 (prune_range_ms (pause 1000 40) 300 1200)).items
    ≡ shown window collecting.items
shown-prune_example =
    shown-prune collecting 1000 40 300 1200 window in_order (omega arith) window_lem few_lem
