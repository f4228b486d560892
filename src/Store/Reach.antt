-- ===== src/Store/Reach.antt =====
-- The store over time: the calls that the stream, the backfill and the render loop make.
use nscouter.Base.{ℕ, refl, inl, inr, List, [], arith, ◌≡◌, ◌∙◌, ◌∷◌, nat_eq, list_eq}
use nscouter.Base.Numbers.{Number}
use nscouter.Xlog.{SXlog}
use nscouter.Store.Lists.{
  From, Until, Sorted, Sorted-append, last_n, Sorted-keep_recent, Sorted-drop,
}
use nscouter.Store.Prune.{IsOrdered, prune-items, prune-fields}
use nscouter.Store.{
  Store, create, set_max_items, reset_clock_skew, add, add_batch, add_history, keep_recent, prune,
  clear_dirty, clear,
}

-- A batch comes in time order, and no earlier than what is held: so the collector sends it.
pub data Step (s : Store) : Store → Type 0 where
  adds : (x : SXlog) (at : ℕ) → Until x.end_time s.items → Step s (add s x at)
  batches :
      (t : ℕ) (xs : List SXlog) (at : ℕ)
      → Until t s.items
      → From t xs
      → Sorted xs
      → Step s (add_batch s xs at)
  histories : (xs : List SXlog) → Step s (add_history s xs)
  prunes : (now range : ℕ) → Step s (prune s now range)
  resizes : (v : Number) → Step s (set_max_items s v)
  resets_skew : Step s (reset_clock_skew s)
  clears_dirty : Step s (clear_dirty s)
  clears : Step s (clear s)

pub data Reach (s : Store) : Store → Type 0 where
  here : Reach s s
  next : {t u : Store} → Reach s t → Step t u → Reach s u

batch-IsOrdered :
    (s : Store) (t : ℕ) (xs : List SXlog) (at : ℕ)
    → Until t s.items
    → From t xs
    → Sorted xs
    → IsOrdered s
    → IsOrdered (add_batch s xs at)
unfolding add_batch
batch-IsOrdered s t [] at u f r h = h
batch-IsOrdered s t (x ∷ xs) at u f r (inl e) = inl e
batch-IsOrdered s t (x ∷ xs) at u f r (inr o) = inr (Sorted-append t s.items (x ∷ xs) o u r f)

history-IsOrdered : (s : Store) (xs : List SXlog) → IsOrdered s → IsOrdered (add_history s xs)
unfolding add_history
history-IsOrdered s [] h = h
history-IsOrdered s (x ∷ xs) h = inl refl

prune-IsOrdered : (s : Store) (now range : ℕ) → IsOrdered s → IsOrdered (prune s now range)
prune-IsOrdered s now range (inl e) = inl ((prune-fields s now range).4 ∙ e)
prune-IsOrdered s now range (inr o) = inr (
    rw (prune-items s now range (inr o)) (Sorted-drop _ _ (Sorted-keep_recent now range s.items o)))

Step-IsOrdered : {s t : Store} → Step s t → IsOrdered s → IsOrdered t
unfolding add set_max_items reset_clock_skew clear_dirty clear
Step-IsOrdered (adds x at u) (inl e) = inl e
Step-IsOrdered {s} (adds x at u) (inr o) =
    inr (Sorted-append x.end_time s.items (x ∷ []) o u (tt, tt) (omega arith, tt))
Step-IsOrdered {s} (batches t xs at u f r) h = batch-IsOrdered s t xs at u f r h
Step-IsOrdered {s} (histories xs) h = history-IsOrdered s xs h
Step-IsOrdered {s} (prunes now range) h = prune-IsOrdered s now range h
Step-IsOrdered (resizes v) h = h
Step-IsOrdered resets_skew h = h
Step-IsOrdered clears_dirty h = h
Step-IsOrdered clears h = inr tt

pub create-IsOrdered : (v : Number) → IsOrdered (create v)
unfolding create
create-IsOrdered v = inr tt

pub Reach-IsOrdered : {s t : Store} → Reach s t → IsOrdered s → IsOrdered t
Reach-IsOrdered here h = h
Reach-IsOrdered (next r st) h = Step-IsOrdered st (Reach-IsOrdered r h)

-- In every store that is reached from a new one, whatever history was mixed in, pruning keeps of the
-- items inside the window, and of no others, the last `max_items` in the order in which they are
-- held. What is left is in time order unless history was mixed in: so without history those kept are
-- the newest. (Live items come in time order, none before those that are held; history comes in any
-- order.)
pub Reach-prune :
    (v : Number) {s : Store} (now range : ℕ)
    → Reach (create v) s
    → ((prune s now range).items ≡ last_n s.max_items (keep_recent now range s.items))
      × IsOrdered (prune s now range)
Reach-prune v now range r =
    let o = Reach-IsOrdered r (create-IsOrdered v) in
    (prune-items _ now range o, prune-IsOrdered _ now range o)
