-- ===== src/DetailTabs/Events.antt =====
-- Every event of the detail tabs, answers that come late included.
use nscouter.Base.{
  Bool-cases, length, get_elem?, ℕ, zero, suc, min, refl, ap, inl, inr, true, false, Option, none,
  some, List, [], arith, list_eq, ◌-◌, ◌<◌, ◌≡◌, ◌∷◌, ◌==◌, nat_eq,
}
use nscouter.Base.Sets.{has, delete, has-delete, Distinct-delete, length-delete-le}
use nscouter.Base.Arrays.{index_of-some, index_of-none, get_elem?-some}
use nscouter.Base.Text.{Text}
use nscouter.Xlog.{SXlog}
use native.Mathlib.Nat.{mod-lt}
use nscouter.DetailTabs.WellFormed.{
  WellFormed, IsCurrent, length-tab_keys, tab_keys-without_key, updated, add_tab-WellFormed,
}
use nscouter.DetailTabs.{
  DetailTab, TabsState, SavedProfile, Dir, forward, backward, tab_keys, without_key, touch, is_key,
  activate, open_xlog, open_saved, loaded, failed, answered, refused, neighbor_key, close,
  close_active, close_all, cycle, next_index, active_index, seed, saved_tab,
}

neighbor-IsCurrent : (ks : List Text) (i : ℕ) → IsCurrent ks (get_elem? ks (min i (length ks - 1)))
neighbor-IsCurrent [] i = refl
neighbor-IsCurrent (k ∷ ks) i =
    let (a, e, h) = get_elem?-some (k ∷ ks) (min i (length (k ∷ ks) - 1)) (omega arith) in rw e h

pub next_index-lt : (dir : Dir) (i n : ℕ) → 0 < n → next_index dir i n < n
next_index-lt forward i n h = mod-lt _ h
next_index-lt backward zero n h = mod-lt _ h
next_index-lt backward (suc i) n h = mod-lt _ h

IsCurrent-other :
    (ks : List Text) (active : Option Text) (key : Text)
    → has ks key ≡ true
    → is_key active key ≡ false
    → IsCurrent ks active
    → IsCurrent (delete ks key) active
IsCurrent-other ks none key h e c = absurd (ground arith)
IsCurrent-other ks (some k) key h e c =
    ground (arith, has-delete ks key k, (list_eq {A = ℕ}).beq_iff key k)

pub data Event (Profile : Type 0) : Type 0 where
  activates : Text → ℕ → Event Profile
  opens : SXlog → ℕ → Event Profile
  opens_saved : SavedProfile Profile → ℕ → Event Profile
  answers : SXlog → Profile → List (ℕ × Text) → Event Profile
  fails : SXlog → Text → Event Profile
  closes : Text → Event Profile
  closes_active closes_all : Event Profile
  cycles : Dir → ℕ → Event Profile

module _ {Profile : Type 0} where
  closed :
      (s : TabsState Profile) (key : Text) (active : Option Text)
      → WellFormed s
      → IsCurrent (delete (tab_keys s.tabs) key) active
      → WellFormed (record { tabs = without_key s.tabs key; active_key = active })
  closed s key active w c = record {
    distinct = rw tab_keys-without_key (Distinct-delete _ key w.distinct);
    few = omega (
      arith,
      length-tab_keys s.tabs,
      length-tab_keys (without_key s.tabs key),
      ap length (tab_keys-without_key s.tabs key),
      length-delete-le (tab_keys s.tabs) key,
      w.few,
    );
    current = rw tab_keys-without_key c;
  }

  neighbor_key-IsCurrent :
      (ts : List (DetailTab Profile)) (key : Text) (i : ℕ)
      → IsCurrent (delete (tab_keys ts) key) (neighbor_key (without_key ts key) i)
  neighbor_key-IsCurrent ts key i =
      rw (← tab_keys-without_key ts key, ← length-tab_keys (without_key ts key))
        (neighbor-IsCurrent (tab_keys (without_key ts key)) i)

  close-WellFormed : (s : TabsState Profile) (key : Text) → WellFormed s → WellFormed (close s key)
  unfolding close
  close-WellFormed s key w = elim (Bool-cases (has (tab_keys s.tabs) key)) [
    | inr e ↦ rw (index_of-none _ key e, close) w
    | inl e ↦
        let (i, f, _, _) = index_of-some (tab_keys s.tabs) key e in
        elim (Bool-cases (is_key s.active_key key)) [
          | inl c ↦ rw (f, close, c) (closed s key _ w (neighbor_key-IsCurrent s.tabs key i))
          | inr c ↦
              rw (f, close, c)
                (closed s key _ w
                  (IsCurrent-other (tab_keys s.tabs) s.active_key key e c w.current))
        ]
  ]

  close_active_key :
      (s : TabsState Profile) (active : Option Text)
      → s.active_key ≡ active
      → WellFormed s
      → WellFormed (close_active s)
  unfolding close_active
  close_active_key s none a w = rw (a, close_active) w
  close_active_key s (some key) a w =
      let h : has (tab_keys s.tabs) key ≡ true = rw a at w.current in
      let (i, f, _, _) = index_of-some (tab_keys s.tabs) key h in
      rw (a, close_active, f) (closed s key _ w (neighbor_key-IsCurrent s.tabs key i))

  pub cycle-WellFormed :
      (s : TabsState Profile) (dir : Dir) (now : ℕ) → WellFormed s → WellFormed (cycle s dir now)
  unfolding cycle
  cycle-WellFormed s dir now w = elim (Bool-cases (length s.tabs == 0)) [
    | inl e ↦ rw e w
    | inr e ↦
        let i = next_index dir (active_index (tab_keys s.tabs) s.active_key) (length s.tabs) in
        let lt : i < length (tab_keys s.tabs) = omega (
          arith,
          next_index-lt dir (active_index (tab_keys s.tabs) s.active_key) (length s.tabs)
              (ground arith),
          length-tab_keys s.tabs,
        ) in
        let (k, f, h) = get_elem?-some (tab_keys s.tabs) i lt in
        rw (e, f) (updated s k (touch now) (some k) (λ t. refl) h w)
  ]

  unfoldable pub step : TabsState Profile → Event Profile → TabsState Profile
  step s (activates key now) = activate s key now
  step s (opens xlog now) = open_xlog s xlog now
  step s (opens_saved saved now) = open_saved s saved now
  step s (answers xlog profile texts) = loaded s xlog profile texts
  step s (fails xlog msg) = failed s xlog msg
  step s (closes key) = close s key
  step s closes_active = close_active s
  step s closes_all = close_all
  step s (cycles dir now) = cycle s dir now

  unfoldable pub run : TabsState Profile → List (Event Profile) → TabsState Profile
  run s [] = s
  run s (e ∷ es) = run (step s e) es

  pub step-WellFormed :
      (s : TabsState Profile) (e : Event Profile) → WellFormed s → WellFormed (step s e)
  unfolding step activate open_xlog open_saved loaded failed close_all
  step-WellFormed s (activates key now) w = elim (Bool-cases (has (tab_keys s.tabs) key)) [
    | inl h ↦ rw h (updated s key (touch now) (some key) (λ t. refl) h w)
    | inr h ↦ rw h w
  ]
  step-WellFormed s (opens xlog now) w = add_tab-WellFormed s (seed xlog now) now w
  step-WellFormed s (opens_saved saved now) w = add_tab-WellFormed s (saved_tab saved now) now w
  step-WellFormed s (answers xlog profile texts) w =
      elim (Bool-cases (has (tab_keys s.tabs) xlog.txid)) [
        | inl h ↦
            rw h (
              updated s xlog.txid (answered xlog profile texts) s.active_key (λ t. refl) w.current
                w)
        | inr h ↦ rw h w
      ]
  step-WellFormed s (fails xlog msg) w = elim (Bool-cases (has (tab_keys s.tabs) xlog.txid)) [
    | inl h ↦ rw h (updated s xlog.txid (refused msg) s.active_key (λ t. refl) w.current w)
    | inr h ↦ rw h w
  ]
  step-WellFormed s (closes key) w = close-WellFormed s key w
  step-WellFormed s closes_active w = close_active_key s s.active_key refl w
  step-WellFormed s closes_all w = record { distinct = tt; few = omega arith; current = refl }
  step-WellFormed s (cycles dir now) w = cycle-WellFormed s dir now w

  run-WellFormed :
      (s : TabsState Profile) (es : List (Event Profile)) → WellFormed s → WellFormed (run s es)
  unfolding run
  run-WellFormed s [] w = w
  run-WellFormed s (e ∷ es) w = run-WellFormed (step s e) es (step-WellFormed s e w)

  -- Whatever is opened, closed and answered, in whatever order: no key has two tabs, at most
  -- eight are open, and the active one is among them, with none active only when none is open.
  pub run-close_all : (es : List (Event Profile)) → WellFormed (run close_all es)
  unfolding close_all
  run-close_all es =
      run-WellFormed close_all es (record { distinct = tt; few = omega arith; current = refl })
