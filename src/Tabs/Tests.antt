-- ===== src/Tabs/Tests.antt =====
-- A window with three tabs, two of them on the screen.
use nscouter.Tabs.Closing.{close_tab-WellFormed}
use nscouter.Tabs.WellFormed.{WellFormed}
use nscouter.Base.{
  leb, length, ℕ, refl, none, some, List, [], arith, ◌≡◌, ◌≢◌, ◌∷◌, if◌then◌else◌, nat_eq, list_eq,
}
use nscouter.Tabs.{
  XlogTab, live, XlogTabsState, drop_tab, close_tab, Session, default_chart_config, row, left,
  center, default_filter, initial_tabs, empty_selection, right, remove_tab,
}
use nscouter.Tabs.Run.{run-initial_tabs, Op, adds, run, drops, IsSafe, closes, closes_pane}

abbrev tab_of : ℕ → List ℕ → XlogTab
tab_of key hashes = record {
  key = key;
  title = none;
  mode = live;
  past_range = none;
  config = default_chart_config;
  filter = record default_filter { obj_hash_set = hashes };
  selection = empty_selection;
}

abbrev three : XlogTabsState
three = record {
  tabs = tab_of 1 (5 ∷ []) ∷ tab_of 2 [] ∷ tab_of 4 (5 ∷ 6 ∷ []) ∷ [];
  active_key = 4;
  panes = 2 ∷ 4 ∷ [];
  dir = row;
  ratio = 500;
}

three-WellFormed : WellFormed 4 three
three-WellFormed = record {
  distinct = (refl, (refl, (refl, tt)));
  made = (omega arith, (omega arith, (omega arith, tt)));
  shown = record {
    distinct = (refl, (refl, tt));
    within = (refl, (refl, tt));
    current = refl;
    few = omega arith;
  };
}

-- Dropped on the left of pane 4, tab 1 stands between the two.
dropped_left : (drop_tab three 1 4 left).panes ≡ 2 ∷ 1 ∷ 4 ∷ []
unfolding drop_tab
dropped_left = refl

-- In the middle it takes the place of pane 4.
dropped_center : (drop_tab three 1 4 center).panes ≡ 2 ∷ 1 ∷ []
unfolding drop_tab
dropped_center = refl

closed_current :
    close_tab three 4
    ≡ some (record three {
      tabs = tab_of 1 (5 ∷ []) ∷ tab_of 2 [] ∷ [];
      active_key = 2;
      panes = 2 ∷ [];
    })
unfolding close_tab
closed_current = refl

abbrev some_ops : List Op
some_ops = adds ∷ drops 8 9 right ∷ closes 8 ∷ closes_pane 9 ∷ adds ∷ closes 9 ∷ []

run-initial_tabs_example : (t : Session) × (run (initial_tabs 7) some_ops ≡ some t) × IsSafe t
run-initial_tabs_example = run-initial_tabs 7 some_ops

close_tab-WellFormed_example :
    (r : XlogTabsState) × (close_tab three 4 ≡ some r)
    × WellFormed 4 r
    × (r.tabs ≡ (if leb (length three.tabs) 1 then three.tabs else remove_tab three.tabs 4))
close_tab-WellFormed_example = close_tab-WellFormed 4 three 4 three-WellFormed

abbrev session : Session
session = record { seq = 4; state = three }

-- A tab of another window that has a key of its own there.
abbrev moved : List XlogTab
moved = tab_of 2 [] ∷ []

abbrev new_pane : ℕ
new_pane = 1

apart : new_pane ≢ 4
apart e = absurd (omega arith)
