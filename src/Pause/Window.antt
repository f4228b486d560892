-- ===== src/Pause/Window.antt =====
-- Pausing and the store: while the screen is frozen, `prune` leaves the frozen window alone.
use nscouter.Base.{
  leb, length, ℕ, refl, Bool, true, false, some, List, [], arith, ◌+◌, ◌-◌, ◌≤◌, ◌≡◌, ◌&&◌, ◌∷◌,
  if◌then◌else◌,
}
use nscouter.Base.Int.{pos_part, neg_part}
use nscouter.Xlog.{SXlog}
use nscouter.Store.{Store, is_old, keep_recent, prune}
use nscouter.Store.Prune.{IsOrdered, prune-items}
use nscouter.Store.Lists.{last_n}
use nscouter.Pause.{pause, TimeWindow, frozen_window, prune_range_ms}

abbrev in_window : TimeWindow → SXlog → Bool
in_window w x =
    leb (pos_part w.start) (x.end_time + neg_part w.start)
    && leb (x.end_time + neg_part w.end) (pos_part w.end)

-- What a frozen screen draws: the items inside its window.
abbrev pub shown : TimeWindow → List SXlog → List SXlog
shown w [] = []
shown w (x ∷ xs) = if in_window w x then x ∷ shown w xs else shown w xs

not_old :
    (at received range now : ℕ) (w : TimeWindow) (x : SXlog)
    → at ≤ now
    → frozen_window (pause at received) range ≡ some w
    → in_window w x ≡ true
    → is_old now (prune_range_ms (pause at received) range now) x ≡ false
unfolding pause frozen_window prune_range_ms
not_old at received range now w x h e i = ground arith

shown-keep_recent :
    (at received range now : ℕ) (w : TimeWindow) (xs : List SXlog)
    → at ≤ now
    → frozen_window (pause at received) range ≡ some w
    → shown w (keep_recent now (prune_range_ms (pause at received) range now) xs) ≡ shown w xs
shown-keep_recent at received range now w [] h e = refl
shown-keep_recent at received range now w (x ∷ xs) h e =
    ground (
      arith,
      not_old at received range now w x h e,
      shown-keep_recent at received range now w xs h e,
    )

last_n_self : (n : ℕ) (xs : List SXlog) → length xs ≤ n → last_n n xs ≡ xs
last_n_self n xs h = let z : length xs - n ≡ 0 = omega arith in rw z

-- While the screen is paused, pruning with the widened range takes no item out of the frozen
-- window, unless more items than the cap are left. (The store is ordered, or prunes as one with
-- history, and the clock does not go back behind the pause.)
pub shown-prune :
    (s : Store) (at received range now : ℕ) (w : TimeWindow)
    → IsOrdered s
    → at ≤ now
    → frozen_window (pause at received) range ≡ some w
    → length (keep_recent now (prune_range_ms (pause at received) range now) s.items) ≤ s.max_items
    → shown w (prune s now (prune_range_ms (pause at received) range now)).items ≡ shown w s.items
shown-prune s at received range now w o h e c =
    rw (prune-items s now _ o, last_n_self s.max_items _ c)
      (shown-keep_recent at received range now w s.items h e)
