-- ===== src/Tabs/WellFormed.antt =====
-- The invariant of a window's tabs, and the moves of the panes that keep it.
use nscouter.Base.{
  length, ℕ, Bool, true, false, Option, none, some, List, arith, ◌≤◌, ◌<◌, ◌≡◌, ◌⊎◌, ◌==◌, nat_eq,
  list_eq,
}
use nscouter.Base.Sets.{
  has, delete, Distinct, has-delete, Distinct-delete, length-delete-le, length-delete-lt,
}
use nscouter.Base.Arrays.{get_elem?-some}
use nscouter.Tabs.Panes.{
  Within, Within-has, Within-of-has, has-replace, Distinct-replace, length-replace, exchange,
  has-exchange, Distinct-exchange, length-exchange, has-splice_pane, Distinct-splice_pane,
  length-splice_pane,
}
use nscouter.Tabs.Keys.{UpTo}
use nscouter.Tabs.{XlogTabsState, tab_keys, replace, splice_pane, neighbor_pane, max_panes}

-- Every pane shows a tab of the row, none twice and four at most, and the current one is among them.
pub record PanesOk (keys panes : List ℕ) (active : ℕ) : Type 0 where
  pub distinct : Distinct panes
  pub within : Within panes keys
  pub current : has panes active ≡ true
  pub few : length panes ≤ max_panes

-- Keys are distinct and were all made by a counter that stands at `n`.
pub record WellFormed (n : ℕ) (s : XlogTabsState) : Type 0 where
  pub distinct : Distinct (tab_keys s.tabs)
  pub made : UpTo n (tab_keys s.tabs)
  pub shown : PanesOk (tab_keys s.tabs) s.panes s.active_key

module _ {keys panes : List ℕ} {active : ℕ} (p : PanesOk keys panes active) where
  pub focus_PanesOk : (k : ℕ) → has panes k ≡ true → PanesOk keys panes k
  focus_PanesOk k h = record { distinct = p.distinct; within = p.within; current = h; few = p.few }

  pub widen_PanesOk :
      (keys' : List ℕ)
      → ((a : ℕ) → has keys a ≡ true → has keys' a ≡ true)
      → PanesOk keys' panes active
  widen_PanesOk keys' f = record {
    distinct = p.distinct;
    within = Within-of-has panes keys' (λ a h. f a (Within-has panes keys a p.within h));
    current = p.current;
    few = p.few;
  }

  -- A tab that is not shown takes the current pane.
  pub replace_PanesOk :
      (k : ℕ) → has keys k ≡ true → has panes k ≡ false → PanesOk keys (replace active k panes) k
  replace_PanesOk k h fresh = record {
    distinct = Distinct-replace active k panes p.distinct fresh;
    within =
        Within-of-has _ keys
          (λ a i. ground (arith, has-replace active k panes a, Within-has panes keys a p.within));
    current = ground (arith, has-replace active k panes k, p.current);
    few = omega (arith, length-replace active k panes, p.few);
  }

  pub delete_PanesOk :
      (k j : ℕ) → has panes j ≡ true → (k == j) ≡ false → PanesOk keys (delete panes k) j
  delete_PanesOk k j h e = record {
    distinct = Distinct-delete panes k p.distinct;
    within =
        Within-of-has _ keys
          (λ a i. ground (arith, has-delete panes k a, Within-has panes keys a p.within));
    current = ground (arith, has-delete panes k j);
    few = omega (arith, length-delete-le panes k, p.few);
  }

  -- Two panes change places, or a tab that is not shown takes the target's.
  pub exchange_PanesOk :
      (k target : ℕ)
      → (k == target) ≡ false
      → has keys k ≡ true
      → has panes target ≡ true
      → PanesOk keys (exchange k target panes) k
  exchange_PanesOk k target e h t = record {
    distinct = Distinct-exchange k target panes e p.distinct;
    within = Within-of-has _ keys (λ a i. ground (
      arith,
      has-exchange k target panes a e,
      Within-has panes keys a p.within,
      Within-has panes keys target p.within,
    ));
    current = ground (arith, has-exchange k target panes k e);
    few = omega (arith, length-exchange k target panes, p.few);
  }

  -- A pane is moved, or a new one set up where there is room.
  pub splice_PanesOk :
      (before : Bool) (at : Option ℕ) (k : ℕ)
      → has keys k ≡ true
      → (has panes k ≡ true) ⊎ (length panes < max_panes)
      → PanesOk keys (splice_pane before at k (delete panes k)) k
  splice_PanesOk before at k h room = record {
    distinct =
        Distinct-splice_pane before at k _ (Distinct-delete panes k p.distinct)
          (ground (arith, has-delete panes k k));
    within = Within-of-has _ keys (λ a i. ground (
      arith,
      has-splice_pane before at k (delete panes k) a,
      has-delete panes k a,
      Within-has panes keys a p.within,
    ));
    current = ground (arith, has-splice_pane before at k (delete panes k) k);
    few = ground (
      arith,
      length-splice_pane before at k (delete panes k),
      length-delete-le panes k,
      length-delete-lt panes k,
      p.few,
    );
  }

-- A row that is not empty has a neighbour for any position.
pub neighbor_pane-some :
    (i : Option ℕ) (panes : List ℕ)
    → 0 < length panes
    → (k : ℕ) × (neighbor_pane i panes ≡ some k) × (has panes k ≡ true)
neighbor_pane-some none panes h = get_elem?-some panes 0 h
neighbor_pane-some (some i) panes h = get_elem?-some panes _ (omega arith)

-- A change that leaves the keys and the panes alone.
pub same_keys :
    (n : ℕ) (s t : XlogTabsState)
    → tab_keys t.tabs ≡ tab_keys s.tabs
    → t.panes ≡ s.panes
    → t.active_key ≡ s.active_key
    → WellFormed n s
    → WellFormed n t
same_keys n s t k p a w = record {
  distinct = rw k w.distinct;
  made = rw k w.made;
  shown = rw (k, p, a) w.shown;
}

-- A change of the panes alone.
pub same_tabs :
    (n : ℕ) (s t : XlogTabsState)
    → tab_keys t.tabs ≡ tab_keys s.tabs
    → PanesOk (tab_keys s.tabs) t.panes t.active_key
    → WellFormed n s
    → WellFormed n t
same_tabs n s t k p w = record { distinct = rw k w.distinct; made = rw k w.made; shown = rw k p }
