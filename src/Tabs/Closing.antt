-- ===== src/Tabs/Closing.antt =====
-- Closing a tab or a pane keeps the tabs well formed and never fails.
use nscouter.Base.{
  leb, Bool-cases, length, get_elem?, ℕ, zero, suc, min, refl, sym, ap, inl, inr, true, false, not,
  some, List, [], arith, ◌-◌, ◌<◌, ◌≡◌, ◌||◌, ◌∷◌, ◌==◌, if◌then◌else◌, nat_eq, list_eq,
}
use nscouter.Base.Sets.{
  has, delete, Distinct, has-delete, Distinct-delete, length-delete, length-delete-le,
}
use nscouter.Base.Arrays.{index_of, index_of-some, index_of-none}
use nscouter.Tabs.Keys.{UpTo-delete, tab_keys-remove_tab, length-tab_keys}
use nscouter.Tabs.WellFormed.{PanesOk, WellFormed, same_tabs, delete_PanesOk, neighbor_pane-some}
use nscouter.Tabs.Panes.{Within-has, Within-of-has}
use nscouter.Tabs.{
  XlogTab, XlogTabsState, tab_keys, remove_tab, close_active, or_active, close_tab, close_pane,
}

-- A first pane stays when a row has more than one.
delete-nonempty :
    (panes : List ℕ) (k j : ℕ) → has panes j ≡ true → (k == j) ≡ false → 0 < length (delete panes k)
delete-nonempty [] k j h e = absurd (cc)
delete-nonempty (x ∷ xs) k j h e = ground (arith, delete-nonempty xs k j)

two_panes :
    (panes : List ℕ) (k : ℕ) → Distinct panes → 1 < length panes → 0 < length (delete panes k)
two_panes panes k d h = elim (Bool-cases (has panes k)) [
  | inl e ↦ omega (arith, length-delete panes k d e)
  | inr e ↦ ground (arith, absent panes k e)
]
  where
    absent : (xs : List ℕ) (a : ℕ) → has xs a ≡ false → length (delete xs a) ≡ length xs
    absent [] a e = refl
    absent (x ∷ xs) a e = ground (arith, absent xs a)

get_tab-some :
    (ts : List XlogTab) (i : ℕ)
    → i < length ts
    → (t : XlogTab) × (get_elem? ts i ≡ some t) × (has (tab_keys ts) t.key ≡ true)
get_tab-some [] i h = elim h [ ]
get_tab-some (t ∷ ts) zero h = (t, refl, ground arith)
get_tab-some (t ∷ ts) (suc i) h =
    let (u, e, m) = get_tab-some ts i (omega arith) in (u, e, ground arith)

-- One tab alone on the screen.
alone : (keys : List ℕ) (k : ℕ) → has keys k ≡ true → PanesOk keys (k ∷ []) k
alone keys k h = record {
  distinct = (refl, tt);
  within = (h, tt);
  current = ground arith;
  few = omega arith;
}

remove_tab-absent : (ts : List XlogTab) (k : ℕ) → has (tab_keys ts) k ≡ false → remove_tab ts k ≡ ts
remove_tab-absent [] k h = refl
remove_tab-absent (t ∷ ts) k h = ground (arith, remove_tab-absent ts k)

-- Closing a pane keeps the row of panes; the tab stays.
pub close_pane-WellFormed :
    (n : ℕ) (s : XlogTabsState) (key : ℕ)
    → WellFormed n s
    → (r : XlogTabsState) × (close_pane s key ≡ some r) × WellFormed n r × (r.tabs ≡ s.tabs)
unfolding close_pane
close_pane-WellFormed n s key w =
    elim (Bool-cases (leb (length s.panes) 1 || not (has s.panes key))) [
      | inl c ↦ rw c (s, refl, w, refl)
      | inr c ↦ elim (Bool-cases (key == s.active_key)) [
        | inr e ↦
            rw (c, e)
              (
                _,
                refl,
                same_tabs n s _ refl (delete_PanesOk w.shown key s.active_key w.shown.current e) w,
                refl,
              )
        | inl e ↦
            let more = two_panes s.panes key w.shown.distinct (ground arith) in
            let (k, f, h) = neighbor_pane-some (index_of s.panes key) (delete s.panes key) more in
            let (i, j) : (has s.panes k ≡ true) × ((key == k) ≡ false) =
              ground (arith, has-delete s.panes key k, h) in
            rw (c, e, f) (_, refl, same_tabs n s _ refl (delete_PanesOk w.shown key k i j) w, refl)
      ]
    ]

-- With tab `key` gone, the row of tabs is well formed around any row of panes on the rest.
without :
    (n : ℕ) (s t : XlogTabsState) (key : ℕ)
    → WellFormed n s
    → t.tabs ≡ remove_tab s.tabs key
    → PanesOk (delete (tab_keys s.tabs) key) t.panes t.active_key
    → WellFormed n t
without n s t key w e p =
    let k : tab_keys t.tabs ≡ delete (tab_keys s.tabs) key =
      rw e (tab_keys-remove_tab s.tabs key) in
    record {
      distinct = rw k (Distinct-delete _ key w.distinct);
      made = rw k (UpTo-delete n key _ w.made);
      shown = rw k p;
    }

-- The panes that are left show tabs that are left.
panes_without :
    (n : ℕ) (s : XlogTabsState) (key j : ℕ)
    → WellFormed n s
    → has (delete s.panes key) j ≡ true
    → PanesOk (delete (tab_keys s.tabs) key) (delete s.panes key) j
panes_without n s key j w h = record {
  distinct = Distinct-delete s.panes key w.shown.distinct;
  within = Within-of-has _ _ (λ a i. ground (
    arith,
    has-delete s.panes key a,
    has-delete (tab_keys s.tabs) key a,
    Within-has s.panes (tab_keys s.tabs) a w.shown.within,
  ));
  current = h;
  few = omega (arith, length-delete-le s.panes key, w.shown.few);
}

-- The current tab goes: another pane takes over, or a neighbour in the row of tabs.
close_active-WellFormed :
    (n : ℕ) (s : XlogTabsState) (key at : ℕ) (panes : List ℕ)
    → WellFormed n s
    → 1 < length s.tabs
    → has (tab_keys s.tabs) key ≡ true
    → delete s.panes key ≡ panes
    → (r : XlogTabsState) × (close_active s key at (remove_tab s.tabs key) panes ≡ some r)
      × WellFormed n r
      × (r.tabs ≡ remove_tab s.tabs key)
close_active-WellFormed n s key at [] w more h e =
    let left : 0 < length (remove_tab s.tabs key) = omega (
      arith,
      length-tab_keys s.tabs,
      length-tab_keys (remove_tab s.tabs key),
      ap length (tab_keys-remove_tab s.tabs key),
      length-delete (tab_keys s.tabs) key w.distinct h,
    ) in
    let (t, f, g) =
      get_tab-some (remove_tab s.tabs key) (min at (length (remove_tab s.tabs key) - 1))
        (omega arith) in
    rw (f, close_active)
      (_, refl, without n s _ key w refl (alone _ t.key (rw tab_keys-remove_tab at g)), refl)
close_active-WellFormed n s key at (p ∷ ps) w more h e =
    let (k, f, g) = neighbor_pane-some (index_of s.panes key) (p ∷ ps) (omega arith) in
    rw (f, close_active)
      (_, refl, without n s _ key w refl (rw e at (panes_without n s key k w (rw e g))), refl)

or_active_self : (panes : List ℕ) (a : ℕ) → has panes a ≡ true → or_active panes a ≡ panes
or_active_self [] a h = absurd (cc)
or_active_self (p ∷ ps) a h = refl

-- Closing a tab that is not the last one takes that tab, and no other, from the row, and moves on to
-- a pane or a tab that is there; the tabs stay well formed. Closing the last tab does nothing.
pub close_tab-WellFormed :
    (n : ℕ) (s : XlogTabsState) (key : ℕ)
    → WellFormed n s
    → (r : XlogTabsState) × (close_tab s key ≡ some r)
      × WellFormed n r
      × (r.tabs ≡ (if leb (length s.tabs) 1 then s.tabs else remove_tab s.tabs key))
unfolding close_tab
close_tab-WellFormed n s key w = elim (Bool-cases (leb (length s.tabs) 1)) [
  | inl last ↦ rw last (s, refl, w, refl)
  | inr more ↦ elim (Bool-cases (has (tab_keys s.tabs) key)) [
    | inr e ↦ rw (more, index_of-none _ key e) (s, refl, w, sym (remove_tab-absent s.tabs key e))
    | inl e ↦
        let (at, f, _, _) = index_of-some (tab_keys s.tabs) key e in
        elim (Bool-cases (key == s.active_key)) [
          | inl c ↦ rw (more, f, c) (close_active-WellFormed n s key at _ w (ground arith) e refl)
          | inr c ↦
              let h : has (delete s.panes key) s.active_key ≡ true =
                ground (arith, has-delete s.panes key s.active_key, w.shown.current) in
              rw (more, f, c, or_active_self (delete s.panes key) s.active_key h)
                (_, refl, without n s _ key w refl (panes_without n s key s.active_key w h), refl)
        ]
  ]
]
