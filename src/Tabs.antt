-- ===== src/Tabs.antt =====
-- features/xlog/hooks/xlogTabs.ts: the tabs of a window, and the panes that show them side by side.
-- A key `xlog-n` is the number n; the module variable `seq`, from which keys are made, is passed.
-- `none` as a result stands for a `TypeError`, or for an `undefined` stored as the active key.
pub mod Panes
pub mod Keys
pub mod WellFormed
pub mod Steps
pub mod Closing
pub mod Run
pub mod Resolved
pub mod Drop
mod Tests
use nscouter.Base.{
  leb, length, get_elem?, ℕ, suc, min, max, Bool, true, false, not, Option, none, some, List, [],
  ◌+◌, ◌-◌, ◌*◌, ◌&&◌, ◌||◌, ◌∷◌, ◌++◌, ◌==◌, ◌===◌, if◌then◌else◌, nat_eq, list_eq,
}
use nscouter.Base.Int.{ℤ, pos, negsuc}
use nscouter.Base.Numbers.{Number, milli, not_finite}
use nscouter.Base.Sets.{has, add_all, delete}
use nscouter.Base.Text.{Text, trim}
use nscouter.Xlog.{
  XlogMode, live, PastRange, XlogChartConfig, XlogFilterState, default_chart_config, default_filter,
}
use nscouter.Selection.{GroupSelection, empty_selection}
use nscouter.Base.Arrays.{index_of, insert_at}

pub record XlogTab : Type 0 where
  pub key : ℕ
  pub title : Option Text
  pub mode : XlogMode
  pub past_range : Option PastRange
  pub config : XlogChartConfig
  pub filter : XlogFilterState
  pub selection : GroupSelection

pub data SplitDir : Type 0 where
  row column : SplitDir

-- The ratio is in thousandths.
pub record XlogTabsState : Type 0 where
  pub tabs : List XlogTab
  pub active_key : ℕ
  pub panes : List ℕ
  pub dir : SplitDir
  pub ratio : ℕ

abbrev pub max_panes : ℕ
max_panes = 4

abbrev pub min_ratio : ℕ
min_ratio = 200

abbrev pub max_ratio : ℕ
max_ratio = 800

abbrev pub max_xlog_tabs : ℕ
max_xlog_tabs = 6

-- The state and the module's `seq`.
pub record Session : Type 0 where
  pub seq : ℕ
  pub state : XlogTabsState
  pub open state use *

unfoldable pub initial_tabs : ℕ → Session
initial_tabs seq = record {
  seq = suc seq;
  state = record {
    tabs = tab ∷ [];
    active_key = suc seq;
    panes = suc seq ∷ [];
    dir = row;
    ratio = 500;
  };
}
  where
    tab : XlogTab
    tab = record {
      key = suc seq;
      title = none;
      mode = live;
      past_range = none;
      config = default_chart_config;
      filter = default_filter;
      selection = empty_selection;
    }

abbrev pub tab_keys : List XlogTab → List ℕ
tab_keys [] = []
tab_keys (t ∷ ts) = t.key ∷ tab_keys ts

-- `tabs.find(t => t.key === key)`.
abbrev pub find_tab : List XlogTab → ℕ → Option XlogTab
find_tab [] key = none
find_tab (t ∷ ts) key = if t.key == key then some t else find_tab ts key

-- `tabs.filter(t => t.key !== key)`.
abbrev pub remove_tab : List XlogTab → ℕ → List XlogTab
remove_tab [] key = []
remove_tab (t ∷ ts) key = if t.key == key then remove_tab ts key else t ∷ remove_tab ts key

-- `tabs.map(t => (t.key === key ? f(t) : t))`.
abbrev pub update_tab : List XlogTab → ℕ → (XlogTab → XlogTab) → List XlogTab
update_tab [] key f = []
update_tab (t ∷ ts) key f = (if t.key == key then f t else t) ∷ update_tab ts key f

-- `panes.map(k => (k === old ? new : k))`.
abbrev pub replace : ℕ → ℕ → List ℕ → List ℕ
replace old new [] = []
replace old new (k ∷ ks) = (if k == old then new else k) ∷ replace old new ks

abbrev or_else {ℓ} : {A : Type ℓ} → Option A → Option A → Option A
or_else none b = b
or_else (some a) b = some a

pub active_tab : XlogTabsState → Option XlogTab
active_tab s = or_else (find_tab s.tabs s.active_key) (get_elem? s.tabs 0)

pub rename_tab : XlogTabsState → ℕ → Text → XlogTabsState
rename_tab s key title =
    let name = trim title in
    record s {
      tabs =
          update_tab s.tabs key (λ t. record t { title = if name === [] then none else some name });
    }

-- Where the copy goes: after the original.
abbrev pub copy_position : XlogTabsState → ℕ
copy_position s = elim (index_of (tab_keys s.tabs) s.active_key) [
  | none ↦ length s.tabs
  | some at ↦ at + 1
]

abbrev copy_tab : ℕ → XlogTab → XlogTab
copy_tab key src = record src {
  key = key;
  title = none;
  filter = record (src.filter) { obj_hash_set = add_all [] src.filter.obj_hash_set };
}

abbrev open_copy : Session → XlogTab → Session
open_copy s src = record s {
  seq = suc s.seq;
  state = record (s.state) {
    tabs = insert_at (copy_position s.state) (copy_tab (suc s.seq) src) s.tabs;
    active_key = suc s.seq;
    panes = replace s.active_key (suc s.seq) s.panes;
  };
}

pub add_tab : Session → Option Session
add_tab s =
    if leb max_xlog_tabs (length s.tabs)
    then some s
    else elim (active_tab s.state) [ none ↦ none | some src ↦ some (open_copy s src) ]

-- The neighbour of a pane that goes: `panes[Math.max(0, Math.min(i, panes.length - 1))]`.
abbrev pub neighbor_pane : Option ℕ → List ℕ → Option ℕ
neighbor_pane none panes = get_elem? panes 0
neighbor_pane (some i) panes = get_elem? panes (min i (length panes - 1))

abbrev close_active : XlogTabsState → ℕ → ℕ → List XlogTab → List ℕ → Option XlogTabsState
close_active s key at tabs [] = elim (get_elem? tabs (min at (length tabs - 1))) [
  | none ↦ none
  | some neighbor ↦
      some (record s { tabs = tabs; active_key = neighbor.key; panes = neighbor.key ∷ [] })
]
close_active s key at tabs (p ∷ ps) = elim (neighbor_pane (index_of s.panes key) (p ∷ ps)) [
  | none ↦ none
  | some k ↦ some (record s { tabs = tabs; panes = p ∷ ps; active_key = k })
]

abbrev or_active : List ℕ → ℕ → List ℕ
or_active [] active = active ∷ []
or_active (p ∷ ps) active = p ∷ ps

pub close_tab : XlogTabsState → ℕ → Option XlogTabsState
close_tab s key = if leb (length s.tabs) 1 then some s else elim (index_of (tab_keys s.tabs) key) [
  | none ↦ some s
  | some at ↦
      let tabs = remove_tab s.tabs key in
      let panes = delete s.panes key in
      if key == s.active_key
      then close_active s key at tabs panes
      else some (record s { tabs = tabs; panes = or_active panes s.active_key })
]

pub activate : XlogTabsState → ℕ → XlogTabsState
activate s key =
    if not (has (tab_keys s.tabs) key)
    then s
    else if has s.panes key
    then record s { active_key = key }
    else record s { active_key = key; panes = replace s.active_key key s.panes }

pub data DropSide : Type 0 where
  left right top bottom center : DropSide

-- The `map` with an index, from index `i`.
abbrev pub swap_from : ℕ → ℕ → Option ℕ → ℕ → List ℕ → List ℕ
swap_from key target from i [] = []
swap_from key target from i (k ∷ ks) =
    (if k == target then key else elim from [ none ↦ k | some j ↦ if i == j then target else k ])
    ∷ swap_from key target from (i + 1) ks

-- `rest.splice(at, 0, key)` or `rest.splice(at + 1, 0, key)`, with `at` -1 where the target is gone.
abbrev pub splice_pane : Bool → Option ℕ → ℕ → List ℕ → List ℕ
splice_pane true none key rest = insert_at (length rest - 1) key rest
splice_pane true (some at) key rest = insert_at at key rest
splice_pane false none key rest = insert_at 0 key rest
splice_pane false (some at) key rest = insert_at (at + 1) key rest

abbrev is_before : DropSide → Bool
is_before left = true
is_before top = true
is_before _ = false

abbrev is_center : DropSide → Bool
is_center center = true
is_center _ = false

abbrev dir_of : DropSide → SplitDir
dir_of left = row
dir_of right = row
dir_of _ = column

pub drop_tab : XlogTabsState → ℕ → ℕ → DropSide → XlogTabsState
drop_tab s key target side =
    if not (has (tab_keys s.tabs) key) || not (has s.panes target)
    then s
    else if key == target
    then record s { active_key = key }
    else if is_center side || leb max_panes (length s.panes) && not (has s.panes key)
    then record s {
      panes = swap_from key target (index_of s.panes key) 0 s.panes;
      active_key = key;
    }
    else let rest = delete s.panes key in
      record s {
        panes = splice_pane (is_before side) (index_of rest target) key rest;
        active_key = key;
        dir = dir_of side;
      }

-- `incoming.map(t => ({ ...t, key: nextKey() }))`.
abbrev pub with_keys : ℕ → List XlogTab → List XlogTab
with_keys seq [] = []
with_keys seq (t ∷ ts) = record t { key = suc seq } ∷ with_keys (suc seq) ts

pub import_tabs : Session → List XlogTab → Session
import_tabs s [] = s
import_tabs s (t ∷ ts) = record s {
  seq = s.seq + length (t ∷ ts);
  state = activate (record (s.state) { tabs = s.tabs ++ with_keys s.seq (t ∷ ts) }) (suc s.seq);
}

pub close_pane : XlogTabsState → ℕ → Option XlogTabsState
close_pane s key =
    if leb (length s.panes) 1 || not (has s.panes key)
    then some s
    else let panes = delete s.panes key in
      if key == s.active_key
      then elim (neighbor_pane (index_of s.panes key) panes) [
        | none ↦ none
        | some k ↦ some (record s { panes = panes; active_key = k })
      ]
      else some (record s { panes = panes })

pub set_ratio : XlogTabsState → Number → XlogTabsState
set_ratio s not_finite = s
set_ratio s (milli (pos r)) = record s { ratio = min max_ratio (max min_ratio r) }
set_ratio s (milli (negsuc r)) = record s { ratio = min_ratio }

-- A patch sets any fields but the key.
pub patch_tab : XlogTabsState → ℕ → (XlogTab → XlogTab) → XlogTabsState
patch_tab s key patch = record s {
  tabs = update_tab s.tabs key (λ t. record (patch t) { key = t.key });
}

pub patch_active : XlogTabsState → (XlogTab → XlogTab) → XlogTabsState
patch_active s patch = record s {
  tabs = update_tab s.tabs s.active_key (λ t. record (patch t) { key = t.key });
}

abbrev all_has : List ℕ → List ℕ → Bool
all_has b [] = true
all_has b (v ∷ a) = has b v && all_has b a

pub same_set : List ℕ → List ℕ → Bool
same_set a b = length a == length b && all_has b a

abbrev pub with_hashes : List ℕ → XlogTab → XlogTab
with_hashes hashes t = record t { filter = record (t.filter) { obj_hash_set = add_all [] hashes } }

pub set_resolved : XlogTabsState → ℕ → List ℕ → XlogTabsState
set_resolved s key hashes = elim (find_tab s.tabs key) [
  | none ↦ s
  | some tab ↦
      if same_set tab.filter.obj_hash_set hashes
      then s
      else record s { tabs = update_tab s.tabs key (with_hashes hashes) }
]

abbrev pub cleared : List XlogTab → List XlogTab
cleared [] = []
cleared (t ∷ ts) =
    record t { selection = empty_selection; filter = record (t.filter) { obj_hash_set = [] } }
    ∷ cleared ts

pub clear_selections : XlogTabsState → XlogTabsState
clear_selections s = record s { tabs = cleared s.tabs }
