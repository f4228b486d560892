-- ===== src/Store/Prune.antt =====
-- `prune` against its specification: what left the window goes, then the oldest above the cap.
use nscouter.Base.{
  ltb, Bool-cases, length, length-drop, ℕ, ap, inl, inr, Bool, true, false, some, List, arith, ◌+◌,
  ◌-◌, ◌≤◌, ◌≡◌, ◌∙◌, ◌⊎◌, nat_eq, list_eq,
}
use nscouter.Xlog.{SXlog}
use nscouter.Store.Lists.{
  Sorted, last_n, length-last_n-le, keep_recent_of_none_old, skip_old-eq-keep_recent,
}
use nscouter.Store.{Store, keep_recent, prune_time, prune_cap, prune}

-- The front of the array is the oldest, or the store knows that it may not be.
abbrev pub IsOrdered : Store → Type 0
IsOrdered s = (s.has_history ≡ true) ⊎ Sorted s.items

prune_time_history :
    (now range : ℕ) (xs : List SXlog) → prune_time true now range xs ≡ keep_recent now range xs
unfolding prune_time
prune_time_history now range xs = ground (arith, keep_recent_of_none_old now range xs)

pub prune_time_lem :
    (history : Bool) (now range : ℕ) (xs : List SXlog)
    → (history ≡ true) ⊎ Sorted xs
    → prune_time history now range xs ≡ keep_recent now range xs
unfolding prune_time
prune_time_lem true now range xs h = prune_time_history now range xs
prune_time_lem false now range xs (inl e) = cc
prune_time_lem false now range xs (inr s) = skip_old-eq-keep_recent now range xs s

pub prune_cap-items :
    (s : Store) (now : ℕ) (xs : List SXlog) → (prune_cap s now xs).items ≡ last_n s.max_items xs
unfolding prune_cap
prune_cap-items s now xs = elim (Bool-cases (ltb s.max_items (length xs))) [
  | inl e ↦ rw e
  | inr e ↦ let z : length xs - s.max_items ≡ 0 = ground arith in rw (e, z)
]

pub prune-fields :
    (s : Store) (now range : ℕ)
    → let t = prune_cap s now (prune_time s.has_history now range s.items) in
      ((prune s now range).items ≡ t.items)
      × ((prune s now range).dropped_by_cap ≡ t.dropped_by_cap)
      × ((prune s now range).last_drop_at ≡ t.last_drop_at)
      × ((prune s now range).max_items ≡ s.max_items)
      × ((prune s now range).has_history ≡ s.has_history)
unfolding prune prune_cap
prune-fields s now range = ground arith

-- The branch with no history scans only the front of the array; on an ordered store both branches
-- leave the last `max_items` of the items inside the window, in their order.
pub prune-items :
    (s : Store) (now range : ℕ)
    → IsOrdered s
    → (prune s now range).items ≡ last_n s.max_items (keep_recent now range s.items)
prune-items s now range h =
    (prune-fields s now range).0
    ∙ prune_cap-items s now _
    ∙ ap (last_n s.max_items) (prune_time_lem s.has_history now range s.items h)

-- Whatever the store held, it is within its cap afterwards.
pub length-prune-le : (s : Store) (now range : ℕ) → length (prune s now range).items ≤ s.max_items
length-prune-le s now range =
    rw ((prune-fields s now range).0, prune_cap-items) (length-last_n-le s.max_items _)

prune_cap-dropped :
    (s : Store) (now : ℕ) (xs : List SXlog)
    → (prune_cap s now xs).dropped_by_cap + length (prune_cap s now xs).items
      ≡ s.dropped_by_cap + length xs
unfolding prune_cap
prune_cap-dropped s now xs = ground (arith, length-drop (length xs - s.max_items) xs)

-- No item inside the window goes uncounted: the drop counter grows by exactly the items that the
-- cap took, and not by those that left the window.
pub prune-dropped :
    (s : Store) (now range : ℕ)
    → IsOrdered s
    → (prune s now range).dropped_by_cap + length (prune s now range).items
      ≡ s.dropped_by_cap + length (keep_recent now range s.items)
prune-dropped s now range h =
    rw ((prune-fields s now range).0, (prune-fields s now range).1)
      (prune_cap-dropped s now _
        ∙ ap (λ ys. s.dropped_by_cap + length ys)
            (prune_time_lem s.has_history now range s.items h))

prune_cap-last_drop_at :
    (s : Store) (now : ℕ) (xs : List SXlog)
    → ((prune_cap s now xs).last_drop_at ≡ some now) × (s.max_items + 1 ≤ length xs)
      ⊎ ((prune_cap s now xs).last_drop_at ≡ s.last_drop_at) × (length xs ≤ s.max_items)
unfolding prune_cap
prune_cap-last_drop_at s now xs = ground arith

-- The time of the last drop is set by exactly those calls that find more items inside the window
-- than the cap allows.
pub prune-last_drop_at :
    (s : Store) (now range : ℕ)
    → IsOrdered s
    → ((prune s now range).last_drop_at ≡ some now)
        × (s.max_items + 1 ≤ length (keep_recent now range s.items))
      ⊎ ((prune s now range).last_drop_at ≡ s.last_drop_at)
        × (length (keep_recent now range s.items) ≤ s.max_items)
prune-last_drop_at s now range h =
    rw ((prune-fields s now range).2, ← prune_time_lem s.has_history now range s.items h)
      (prune_cap-last_drop_at s now _)
