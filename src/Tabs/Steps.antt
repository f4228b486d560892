-- ===== src/Tabs/Steps.antt =====
-- Each operation on the tabs keeps them well formed, and those that could fail do not.
use nscouter.Base.Numbers.{Number, milli, not_finite}
use nscouter.Base.Int.{pos, negsuc}
use nscouter.Base.Sets.{has, has-append}
use nscouter.Base.Text.{Text}
use nscouter.Base.Arrays.{insert_at, has-insert_at, Distinct-insert_at}
use nscouter.Tabs.Panes.{Within-has, swap-eq-exchange}
use nscouter.Tabs.Keys.{
  UpTo, UpTo-has, UpTo-mono, UpTo-append, UpTo-insert_at, tab_keys-update_tab, tab_keys-insert_at,
  tab_keys-append, tab_keys-cleared, UpTo-with_keys, Distinct-import,
}
use nscouter.Tabs.WellFormed.{
  WellFormed, same_tabs, same_keys, focus_PanesOk, widen_PanesOk, replace_PanesOk, exchange_PanesOk,
  splice_PanesOk, PanesOk,
}
use nscouter.Tabs.{
  XlogTab, XlogTabsState, Session, initial_tabs, tab_keys, find_tab, active_tab, rename_tab,
  copy_position, copy_tab, open_copy, add_tab, activate, DropSide, drop_tab, with_keys, import_tabs,
  set_ratio, patch_tab, patch_active, set_resolved, same_set, clear_selections, max_panes,
  is_before, is_center, replace,
}
use nscouter.Base.{
  leb, Bool-cases, Option-cases, length, ℕ, zero, suc, refl, ap, inl, inr, true, false, not, some,
  List, [], arith, ◌+◌, ◌≡◌, ◌&&◌, ◌||◌, ◌∷◌, ◌++◌, ◌==◌, if◌then◌else◌, nat_eq, list_eq,
}
use nscouter.Base.Numbers.{Number, milli, not_finite}
use nscouter.Base.Int.{pos, negsuc}
use nscouter.Base.Text.{Text}

pub activate-WellFormed :
    (n : ℕ) (s : XlogTabsState) (key : ℕ) → WellFormed n s → WellFormed n (activate s key)
unfolding activate
activate-WellFormed n s key w = elim (Bool-cases (has (tab_keys s.tabs) key)) [
  | inr e ↦ rw e w
  | inl e ↦ elim (Bool-cases (has s.panes key)) [
    | inl f ↦ rw (e, f) (same_tabs n s _ refl (focus_PanesOk w.shown key f) w)
    | inr f ↦ rw (e, f) (same_tabs n s _ refl (replace_PanesOk w.shown key e f) w)
  ]
]

drop_PanesOk :
    (n : ℕ) (s : XlogTabsState) (key target : ℕ) (side : DropSide)
    → has (tab_keys s.tabs) key ≡ true
    → has s.panes target ≡ true
    → (key == target) ≡ false
    → WellFormed n s
    → WellFormed n (drop_tab s key target side)
unfolding drop_tab
drop_PanesOk n s key target side k t e w =
    elim (Bool-cases (is_center side || leb max_panes (length s.panes) && not (has s.panes key))) [
      | inl c ↦
          rw (k, t, e, c, swap-eq-exchange key target s.panes w.shown.distinct)
            (same_tabs n s _ refl (exchange_PanesOk w.shown key target e k t) w)
      | inr c ↦
          rw (k, t, e, c)
            (same_tabs n s _ refl (splice_PanesOk w.shown (is_before side) _ key k (ground arith))
              w)
    ]

pub drop_tab-WellFormed :
    (n : ℕ) (s : XlogTabsState) (key target : ℕ) (side : DropSide)
    → WellFormed n s
    → WellFormed n (drop_tab s key target side)
unfolding drop_tab
drop_tab-WellFormed n s key target side w = elim (Bool-cases (has (tab_keys s.tabs) key)) [
  | inr k ↦ rw k w
  | inl k ↦ elim (Bool-cases (has s.panes target)) [
    | inr t ↦ rw (k, t) w
    | inl t ↦ elim (Bool-cases (key == target)) [
      | inl e ↦
          let h : has s.panes key ≡ true = ground arith in
          rw (k, t, e) (same_tabs n s _ refl (focus_PanesOk w.shown key h) w)
      | inr e ↦ drop_PanesOk n s key target side k t e w
    ]
  ]
]

find_tab-some :
    (ts : List XlogTab) (key : ℕ)
    → has (tab_keys ts) key ≡ true
    → (t : XlogTab) × (find_tab ts key ≡ some t) × (t.key ≡ key)
find_tab-some [] key h = absurd (cc)
find_tab-some (t ∷ ts) key h = elim (Bool-cases (t.key == key)) [
  | inl e ↦ rw e (t, refl, ground arith)
  | inr e ↦ rw e (find_tab-some ts key (ground arith))
]

length-insert_tab :
    (i : ℕ) (t : XlogTab) (ts : List XlogTab) → length (insert_at i t ts) ≡ suc (length ts)
length-insert_tab zero t ts = refl
length-insert_tab (suc i) t [] = refl
length-insert_tab (suc i) t (u ∷ ts) = ap suc (length-insert_tab i t ts)

-- The first tab of a window.
pub initial_tabs-WellFormed : (seq : ℕ) → WellFormed (initial_tabs seq).seq (initial_tabs seq).state
unfolding initial_tabs
initial_tabs-WellFormed seq = record {
  distinct = (refl, tt);
  made = (omega arith, tt);
  shown = record {
    distinct = (refl, tt);
    within = (ground arith, tt);
    current = ground arith;
    few = omega arith;
  };
}

-- The current tab is found: there is no need of the first one in its place.
pub active_tab-some :
    (n : ℕ) (s : XlogTabsState)
    → WellFormed n s
    → (t : XlogTab) × (active_tab s ≡ some t) × (t.key ≡ s.active_key)
unfolding active_tab
active_tab-some n s w =
    let (t, e, k) =
      find_tab-some s.tabs s.active_key
        (Within-has s.panes (tab_keys s.tabs) s.active_key w.shown.within w.shown.current) in
    rw e (t, refl, k)

-- A tab under a new key, wherever it stands in the row, takes the current pane.
new_PanesOk :
    {keys panes : List ℕ} {active : ℕ} (i k : ℕ)
    → PanesOk keys panes active
    → has keys k ≡ false
    → PanesOk (insert_at i k keys) (replace active k panes) k
new_PanesOk {keys} {panes} i k p new =
    replace_PanesOk
      (widen_PanesOk p (insert_at i k keys) (λ a h. ground (arith, has-insert_at i k keys a))) k
      (ground (arith, has-insert_at i k keys k)) (ground (arith, Within-has panes keys k p.within))

copy-WellFormed :
    (s : Session) (src : XlogTab)
    → WellFormed s.seq s.state
    → WellFormed (suc s.seq) (open_copy s src).state
copy-WellFormed s src w =
    let i = copy_position s.state in
    let new : has (tab_keys s.tabs) (suc s.seq) ≡ false = UpTo-has s.seq _ _ w.made (omega arith) in
    let keys : tab_keys (open_copy s src).tabs ≡ insert_at i (suc s.seq) (tab_keys s.tabs) =
      tab_keys-insert_at _ (copy_tab (suc s.seq) src) s.tabs in
    let made : UpTo (suc s.seq) (tab_keys s.tabs) =
      UpTo-mono {m = s.seq} (tab_keys s.tabs) (omega arith) w.made in
    record {
      distinct = rw keys (Distinct-insert_at i _ _ w.distinct new);
      made = rw keys (UpTo-insert_at (suc s.seq) i (suc s.seq) _ made (omega arith));
      shown = rw keys (new_PanesOk i (suc s.seq) w.shown new);
    }

-- Opening a tab never fails and keeps the tabs well formed. Below the limit of six tabs it makes
-- exactly one more, under a key that was never used; at the limit it does nothing.
pub add_tab-WellFormed :
    (s : Session)
    → WellFormed s.seq s.state
    → (r : Session) × (add_tab s ≡ some r)
      × WellFormed r.seq r.state
      × (length r.tabs ≡ (if leb 6 (length s.tabs) then length s.tabs else suc (length s.tabs)))
unfolding add_tab
add_tab-WellFormed s w = elim (Bool-cases (leb 6 (length s.tabs))) [
  | inl full ↦ rw full (s, refl, w, refl)
  | inr room ↦
      let (src, e, _) = active_tab-some s.seq s.state w in
      rw (room, e)
        (
          open_copy s src,
          refl,
          copy-WellFormed s src w,
          length-insert_tab (copy_position s.state) _ s.tabs,
        )
]

import-WellFormed :
    (n : ℕ) (s : XlogTabsState) (ts : List XlogTab)
    → WellFormed n s
    → WellFormed (n + length ts) (record s { tabs = s.tabs ++ with_keys n ts })
import-WellFormed n s ts w =
    let keys : tab_keys (s.tabs ++ with_keys n ts) ≡ tab_keys s.tabs ++ tab_keys (with_keys n ts) =
      tab_keys-append s.tabs (with_keys n ts) in
    record {
      distinct = rw keys (Distinct-import n (tab_keys s.tabs) ts w.distinct w.made);
      made = rw keys (
          UpTo-append _ _ _ (UpTo-mono (tab_keys s.tabs) (omega arith) w.made)
            (UpTo-with_keys n ts));
      shown = rw keys (
          widen_PanesOk w.shown _
            (λ a h. ground (arith, has-append (tab_keys s.tabs) (tab_keys (with_keys n ts)) a)));
    }

-- Tabs that come from another window get keys of their own, whatever keys they came with.
pub import_tabs-WellFormed :
    (s : Session) (ts : List XlogTab)
    → WellFormed s.seq s.state
    → WellFormed (import_tabs s ts).seq (import_tabs s ts).state
unfolding import_tabs
import_tabs-WellFormed s [] w = w
import_tabs-WellFormed s (t ∷ ts) w =
    activate-WellFormed _ _ _ (import-WellFormed s.seq s.state (t ∷ ts) w)

pub rename_tab-WellFormed :
    (n : ℕ) (s : XlogTabsState) (key : ℕ) (title : Text)
    → WellFormed n s
    → WellFormed n (rename_tab s key title)
unfolding rename_tab
rename_tab-WellFormed n s key title w =
    same_keys n s _ (tab_keys-update_tab s.tabs key _ (λ t. refl)) refl refl w

pub patch_tab-WellFormed :
    (n : ℕ) (s : XlogTabsState) (key : ℕ) (patch : XlogTab → XlogTab)
    → WellFormed n s
    → WellFormed n (patch_tab s key patch)
unfolding patch_tab
patch_tab-WellFormed n s key patch w =
    same_keys n s _ (tab_keys-update_tab s.tabs key _ (λ t. refl)) refl refl w

pub patch_active-WellFormed :
    (n : ℕ) (s : XlogTabsState) (patch : XlogTab → XlogTab)
    → WellFormed n s
    → WellFormed n (patch_active s patch)
unfolding patch_active
patch_active-WellFormed n s patch w =
    same_keys n s _ (tab_keys-update_tab s.tabs s.active_key _ (λ t. refl)) refl refl w

pub set_ratio-WellFormed :
    (n : ℕ) (s : XlogTabsState) (ratio : Number) → WellFormed n s → WellFormed n (set_ratio s ratio)
unfolding set_ratio
set_ratio-WellFormed n s (milli (pos r)) w = same_keys n s _ refl refl refl w
set_ratio-WellFormed n s (milli (negsuc r)) w = same_keys n s _ refl refl refl w
set_ratio-WellFormed n s not_finite w = w

pub set_resolved-WellFormed :
    (n : ℕ) (s : XlogTabsState) (key : ℕ) (hashes : List ℕ)
    → WellFormed n s
    → WellFormed n (set_resolved s key hashes)
unfolding set_resolved
set_resolved-WellFormed n s key hashes w = elim (Option-cases (find_tab s.tabs key)) [
  | inl e ↦ rw (e, set_resolved) w
  | inr (t, e) ↦ elim (Bool-cases (same_set t.filter.obj_hash_set hashes)) [
    | inl f ↦ rw (e, set_resolved, f) w
    | inr f ↦
        rw (e, set_resolved, f)
          (same_keys n s _ (tab_keys-update_tab s.tabs key _ (λ u. refl)) refl refl w)
  ]
]

pub clear_selections-WellFormed :
    (n : ℕ) (s : XlogTabsState) → WellFormed n s → WellFormed n (clear_selections s)
unfolding clear_selections
clear_selections-WellFormed n s w = same_keys n s _ (tab_keys-cleared s.tabs) refl refl w
