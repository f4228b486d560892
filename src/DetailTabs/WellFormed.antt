-- ===== src/DetailTabs/WellFormed.antt =====
-- The invariant of the open detail tabs, event by event.
use nscouter.Base.{
  leb, Bool-cases, length, ℕ, suc, refl, ap, inl, inr, true, false, Option, none, some, List, [],
  arith, list_eq, ◌≤◌, ◌<◌, ◌≡◌, ◌⊎◌, ◌∷◌, ◌++◌, nat_eq,
}
use nscouter.Base.Sets.{
  has, delete, Distinct, has-delete, has-append, Distinct-delete, Distinct-snoc, length-delete,
}
use nscouter.Base.Text.{Text}
use nscouter.DetailTabs.Victim.{Listed, SeenSince, Listed-has, victim_lem}
use nscouter.DetailTabs.{
  DetailTab, TabsState, tab_keys, without_key, update, touch, is_key, make_room, add_tab,
}

-- The active tab is open; there is none only when no tab is open.
abbrev pub IsCurrent : List Text → Option Text → Type 0
IsCurrent keys none = keys ≡ []
IsCurrent keys (some k) = has keys k ≡ true

module _ {Profile : Type 0} where
  -- Each transaction has one tab, at most eight are open, and one of them is active.
  pub record WellFormed (s : TabsState Profile) : Type 0 where
    pub distinct : Distinct (tab_keys s.tabs)
    pub few : length s.tabs ≤ 8
    pub current : IsCurrent (tab_keys s.tabs) s.active_key

  pub length-tab_keys : (ts : List (DetailTab Profile)) → length (tab_keys ts) ≡ length ts
  length-tab_keys [] = refl
  length-tab_keys (t ∷ ts) = ap suc (length-tab_keys ts)

  pub tab_keys-update :
      (ts : List (DetailTab Profile)) (key : Text) (f : DetailTab Profile → DetailTab Profile)
      → ((t : DetailTab Profile) → (f t).key ≡ t.key)
      → tab_keys (update ts key f) ≡ tab_keys ts
  tab_keys-update [] key f h = refl
  tab_keys-update (t ∷ ts) key f h = ground (arith, h t, tab_keys-update ts key f h)

  pub tab_keys-without_key :
      (ts : List (DetailTab Profile)) (key : Text)
      → tab_keys (without_key ts key) ≡ delete (tab_keys ts) key
  tab_keys-without_key [] key = refl
  tab_keys-without_key (t ∷ ts) key = ground (arith, tab_keys-without_key ts key)

  pub tab_keys-append :
      (ts us : List (DetailTab Profile)) → tab_keys (ts ++ us) ≡ tab_keys ts ++ tab_keys us
  tab_keys-append [] us = refl
  tab_keys-append (t ∷ ts) us = ap (λ ks. t.key ∷ ks) (tab_keys-append ts us)

  length-update :
      (ts : List (DetailTab Profile)) (key : Text) (f : DetailTab Profile → DetailTab Profile)
      → length (update ts key f) ≡ length ts
  length-update [] key f = refl
  length-update (t ∷ ts) key f = ap suc (length-update ts key f)

  -- A change of the tabs in place, with another of them active or not.
  pub updated :
      (s : TabsState Profile) (key : Text) (f : DetailTab Profile → DetailTab Profile)
      (active : Option Text)
      → ((t : DetailTab Profile) → (f t).key ≡ t.key)
      → IsCurrent (tab_keys s.tabs) active
      → WellFormed s
      → WellFormed (record { tabs = update s.tabs key f; active_key = active })
  updated s key f active h c w = record {
    distinct = rw (tab_keys-update s.tabs key f h) w.distinct;
    few = omega (arith, length-update s.tabs key f, w.few);
    current = rw (tab_keys-update s.tabs key f h) c;
  }

  -- Room is made by closing the victim, and only when eight tabs are open.
  pub make_room_cases :
      (s : TabsState Profile)
      → WellFormed s
      → (length s.tabs < 8) × (make_room s ≡ s.tabs)
        ⊎ ((v : DetailTab Profile) × (make_room s ≡ without_key s.tabs v.key)
            × (length s.tabs ≡ 8)
            × (is_key s.active_key v.key ≡ false)
            × Listed v s.tabs
            × SeenSince s.active_key v.touched_at s.tabs)
  unfolding make_room
  make_room_cases s w = elim (Bool-cases (leb 8 (length s.tabs))) [
    | inr few ↦ rw few (inl (ground arith, refl))
    | inl full ↦
        let e : length s.tabs ≡ 8 = ground (arith, w.few) in
        let (v, f, k, l, o) = victim_lem s.active_key s.tabs w.distinct (omega arith) in
        rw (full, f) (inr (v, refl, e, k, l, o))
  ]

  pub room_lem :
      (s : TabsState Profile) (key : Text)
      → WellFormed s
      → has (tab_keys s.tabs) key ≡ false
      → Distinct (tab_keys (make_room s))
        × (length (make_room s) < 8)
        × (has (tab_keys (make_room s)) key ≡ false)
  room_lem s key w new = elim (make_room_cases s w) [
    | inl (few, e) ↦ rw e (w.distinct, few, new)
    | inr (v, e, full, k, l, o) ↦
        rw (e, tab_keys-without_key)
          (
            Distinct-delete (tab_keys s.tabs) v.key w.distinct,
            omega (
              arith,
              length-tab_keys s.tabs,
              length-tab_keys (without_key s.tabs v.key),
              ap length (tab_keys-without_key s.tabs v.key),
              length-delete (tab_keys s.tabs) v.key w.distinct (Listed-has v s.tabs l),
            ),
            ground (arith, has-delete (tab_keys s.tabs) v.key key),
          )
  ]

  length-snoc :
      (ts : List (DetailTab Profile)) (t : DetailTab Profile)
      → length (ts ++ t ∷ []) ≡ suc (length ts)
  length-snoc [] t = refl
  length-snoc (u ∷ ts) t = ap suc (length-snoc ts t)

  pub add_tab-WellFormed :
      (s : TabsState Profile) (tab : DetailTab Profile) (now : ℕ)
      → WellFormed s
      → WellFormed (add_tab s tab now)
  add_tab-WellFormed s tab now w = elim (Bool-cases (has (tab_keys s.tabs) tab.key)) [
    | inl old ↦ rw old (updated s tab.key (touch now) (some tab.key) (λ t. refl) old w)
    | inr new ↦
        let (d, few, fresh) = room_lem s tab.key w new in
        let keys : tab_keys (make_room s ++ tab ∷ []) ≡ tab_keys (make_room s) ++ tab.key ∷ [] =
          tab_keys-append (make_room s) (tab ∷ []) in
        rw new (record {
          distinct = rw keys (Distinct-snoc _ tab.key d fresh);
          few = omega (arith, length-snoc (make_room s) tab, few);
          current = rw keys (
              ground (
                arith,
                has-append (tab_keys (make_room s)) (tab.key ∷ []) tab.key,
                (list_eq {A = ℕ}).beq_iff tab.key tab.key,
              ));
        })
  ]
