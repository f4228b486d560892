-- ===== src/Tabs/Run.antt =====
-- Sequences of operations on a window's tabs, as the components dispatch them.
use nscouter.Base.{ℕ, refl, Option, none, some, List, [], ◌≡◌, ◌∷◌, nat_eq, list_eq}
use nscouter.Base.Numbers.{Number}
use nscouter.Base.Text.{Text}
use nscouter.Tabs.{
  XlogTab, Session, initial_tabs, rename_tab, add_tab, close_tab, activate, DropSide, drop_tab,
  import_tabs, close_pane, set_ratio, patch_tab, patch_active, set_resolved, clear_selections,
  XlogTabsState,
}
use nscouter.Tabs.WellFormed.{WellFormed}
use nscouter.Tabs.Closing.{close_tab-WellFormed, close_pane-WellFormed}
use nscouter.Tabs.Steps.{
  activate-WellFormed, drop_tab-WellFormed, initial_tabs-WellFormed, add_tab-WellFormed,
  import_tabs-WellFormed, rename_tab-WellFormed, patch_tab-WellFormed, patch_active-WellFormed,
  set_ratio-WellFormed, set_resolved-WellFormed, clear_selections-WellFormed,
}

pub data Op : Type 0 where
  renames : ℕ → Text → Op
  adds : Op
  closes : ℕ → Op
  activates : ℕ → Op
  drops : ℕ → ℕ → DropSide → Op
  imports : List XlogTab → Op
  closes_pane : ℕ → Op
  sets_ratio : Number → Op
  patches : ℕ → (XlogTab → XlogTab) → Op
  patches_active : (XlogTab → XlogTab) → Op
  resolves : ℕ → List ℕ → Op
  clears : Op

abbrev with_state : Session → Option XlogTabsState → Option Session
with_state s none = none
with_state s (some t) = some (record s { state = t })

unfoldable pub step : Session → Op → Option Session
step s (renames key title) = some (record s { state = rename_tab s.state key title })
step s adds = add_tab s
step s (closes key) = with_state s (close_tab s.state key)
step s (activates key) = some (record s { state = activate s.state key })
step s (drops key target side) = some (record s { state = drop_tab s.state key target side })
step s (imports ts) = some (import_tabs s ts)
step s (closes_pane key) = with_state s (close_pane s.state key)
step s (sets_ratio ratio) = some (record s { state = set_ratio s.state ratio })
step s (patches key patch) = some (record s { state = patch_tab s.state key patch })
step s (patches_active patch) = some (record s { state = patch_active s.state patch })
step s (resolves key hashes) = some (record s { state = set_resolved s.state key hashes })
step s clears = some (record s { state = clear_selections s.state })

unfoldable pub run : Session → List Op → Option Session
run s [] = some s
run s (o ∷ os) = elim (step s o) [ none ↦ none | some t ↦ run t os ]

abbrev pub IsSafe : Session → Type 0
IsSafe s = WellFormed s.seq s.state

pub step_total : (s : Session) (o : Op) → IsSafe s → (t : Session) × (step s o ≡ some t) × IsSafe t
unfolding step
step_total s (renames key title) w = (_, refl, rename_tab-WellFormed _ _ key title w)
step_total s adds w = let (t, e, v, _) = add_tab-WellFormed s w in (t, e, v)
step_total s (closes key) w =
    let (t, e, v, _) = close_tab-WellFormed s.seq s.state key w in rw e (_, refl, v)
step_total s (activates key) w = (_, refl, activate-WellFormed _ _ key w)
step_total s (drops key target side) w = (_, refl, drop_tab-WellFormed _ _ key target side w)
step_total s (imports ts) w = (_, refl, import_tabs-WellFormed s ts w)
step_total s (closes_pane key) w =
    let (t, e, v, _) = close_pane-WellFormed s.seq s.state key w in rw e (_, refl, v)
step_total s (sets_ratio ratio) w = (_, refl, set_ratio-WellFormed _ _ ratio w)
step_total s (patches key patch) w = (_, refl, patch_tab-WellFormed _ _ key patch w)
step_total s (patches_active patch) w = (_, refl, patch_active-WellFormed _ _ patch w)
step_total s (resolves key hashes) w = (_, refl, set_resolved-WellFormed _ _ key hashes w)
step_total s clears w = (_, refl, clear_selections-WellFormed _ _ w)

run_total : (s : Session) (os : List Op) → IsSafe s → (t : Session) × (run s os ≡ some t) × IsSafe t
unfolding run
run_total s [] w = (s, refl, w)
run_total s (o ∷ os) w =
    let (t, e, v) = step_total s o w in let (u, f, x) = run_total t os v in (u, rw (e, run) f, x)

-- Whatever is done to the tabs of a window, in whatever order, no operation fails, and afterwards
-- the keys of the tabs are distinct, the panes are at most four different tabs of the row, and the
-- current tab is one of them.
pub run-initial_tabs :
    (seq : ℕ) (os : List Op) → (t : Session) × (run (initial_tabs seq) os ≡ some t) × IsSafe t
run-initial_tabs seq os = run_total (initial_tabs seq) os (initial_tabs-WellFormed seq)
