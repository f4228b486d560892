-- ===== src/DetailTabs/Gone.antt =====
-- Answers that come after their tab was closed.
use nscouter.Base.{
  leb, Bool-cases, Option-cases, length, get_elem?, beq_comm, ℕ, refl, inl, inr, false, Option,
  none, some, List, [], arith, list_eq, ◌≡◌, ◌∷◌, ◌==◌, ◌===◌, nat_eq,
}
use nscouter.Base.Sets.{has, has-delete, has-append}
use nscouter.Base.Arrays.{index_of-some, index_of-none, index_of}
use nscouter.Base.Text.{Text}
use nscouter.Xlog.{SXlog}
use nscouter.DetailTabs.WellFormed.{tab_keys-update, tab_keys-without_key, tab_keys-append}
use nscouter.DetailTabs.Events.{
  Event, step, run, activates, opens, opens_saved, answers, fails, closes, closes_active,
  closes_all, cycles,
}
use nscouter.DetailTabs.{
  DetailTab, TabsState, saved_tab, is_key, close, tab_keys, make_room, cycle, activate, loaded,
  without_key, victim_from, add_tab, Dir, open_xlog, failed, touch, next_index, open_saved,
  active_index, close_active, close_all, seed, answered, refused,
}

module _ {Profile : Type 0} where
  -- The tab that an event opens if it is not there.
  abbrev opened : Event Profile → Option Text
  opened (activates key now) = none
  opened (opens xlog now) = some xlog.txid
  opened (opens_saved saved now) = some (saved_tab saved now).key
  opened (answers xlog profile texts) = none
  opened (fails xlog msg) = none
  opened (closes key) = none
  opened closes_active = none
  opened closes_all = none
  opened (cycles dir now) = none

  -- None of the events opens the tab.
  abbrev pub Unopened : Text → List (Event Profile) → Type 0
  Unopened key [] = Unit
  Unopened key (e ∷ es) = (is_key (opened e) key ≡ false) × Unopened key es

  pub close-absent :
      (s : TabsState Profile) (key : Text) → has (tab_keys (close s key).tabs) key ≡ false
  unfolding close
  close-absent s key = elim (Bool-cases (has (tab_keys s.tabs) key)) [
    | inr e ↦ rw (index_of-none _ key e, close) e
    | inl e ↦
        let (i, f, _, _) = index_of-some (tab_keys s.tabs) key e in
        let gone : has (tab_keys (without_key s.tabs key)) key ≡ false = rw tab_keys-without_key (
          ground
            (arith, has-delete (tab_keys s.tabs) key key, (list_eq {A = ℕ}).beq_iff key key)) in
        elim (Bool-cases (is_key s.active_key key)) [
          | inl c ↦ rw (f, close, c) gone
          | inr c ↦ rw (f, close, c) gone
        ]
  ]

  without-absent :
      (ts : List (DetailTab Profile)) (k key : Text)
      → has (tab_keys ts) key ≡ false
      → has (tab_keys (without_key ts k)) key ≡ false
  without-absent ts k key h =
      rw tab_keys-without_key (ground (arith, has-delete (tab_keys ts) k key, h))

  make_room-absent :
      (s : TabsState Profile) (key : Text)
      → has (tab_keys s.tabs) key ≡ false
      → has (tab_keys (make_room s)) key ≡ false
  unfolding make_room
  make_room-absent s key h = elim (Bool-cases (leb 8 (length s.tabs))) [
    | inr few ↦ rw few h
    | inl full ↦ elim (Option-cases (victim_from s.active_key none s.tabs)) [
      | inl e ↦ rw (full, e) h
      | inr (v, e) ↦ rw (full, e) (without-absent s.tabs v.key key h)
    ]
  ]

  add_tab-absent :
      (s : TabsState Profile) (tab : DetailTab Profile) (now : ℕ) (key : Text)
      → has (tab_keys s.tabs) key ≡ false
      → (key === tab.key) ≡ false
      → has (tab_keys (add_tab s tab now).tabs) key ≡ false
  add_tab-absent s tab now key h n = elim (Bool-cases (has (tab_keys s.tabs) tab.key)) [
    | inl e ↦ rw (e, tab_keys-update s.tabs tab.key (touch now) (λ t. refl)) h
    | inr e ↦
        rw (e, tab_keys-append (make_room s) (tab ∷ []))
          (ground (
            arith,
            has-append (tab_keys (make_room s)) (tab.key ∷ []) key,
            make_room-absent s key h,
            beq_comm key tab.key,
            n,
          ))
  ]

  cycle-absent :
      (s : TabsState Profile) (dir : Dir) (now : ℕ) (key : Text)
      → has (tab_keys s.tabs) key ≡ false
      → has (tab_keys (cycle s dir now).tabs) key ≡ false
  unfolding cycle
  cycle-absent s dir now key h = elim (Bool-cases (length s.tabs == 0)) [
    | inl e ↦ rw e h
    | inr e ↦
        let i = next_index dir (active_index (tab_keys s.tabs) s.active_key) (length s.tabs) in
        elim (Option-cases (get_elem? (tab_keys s.tabs) i)) [
          | inl f ↦ rw (e, f) h
          | inr (k, f) ↦ rw (e, f, tab_keys-update s.tabs k (touch now) (λ t. refl)) h
        ]
  ]

  step-absent :
      (s : TabsState Profile) (e : Event Profile) (key : Text)
      → has (tab_keys s.tabs) key ≡ false
      → is_key (opened e) key ≡ false
      → has (tab_keys (step s e).tabs) key ≡ false
  unfolding step activate open_xlog open_saved loaded failed close close_active close_all cycle
  step-absent s (activates k now) key h n =
      ground (arith, tab_keys-update s.tabs k (touch now) (λ t. refl), h)
  step-absent s (opens xlog now) key h n = add_tab-absent s (seed xlog now) now key h n
  step-absent s (opens_saved saved now) key h n = add_tab-absent s (saved_tab saved now) now key h n
  step-absent s (answers xlog profile texts) key h n =
      ground (arith, tab_keys-update s.tabs xlog.txid (answered xlog profile texts) (λ t. refl), h)
  step-absent s (fails xlog msg) key h n =
      ground (arith, tab_keys-update s.tabs xlog.txid (refused msg) (λ t. refl), h)
  step-absent s (closes k) key h n = elim (Option-cases (index_of (tab_keys s.tabs) k)) [
    | inl e ↦ rw (e, close) h
    | inr (i, e) ↦ elim (Bool-cases (is_key s.active_key k)) [
      | inl c ↦ rw (e, close, c) (without-absent s.tabs k key h)
      | inr c ↦ rw (e, close, c) (without-absent s.tabs k key h)
    ]
  ]
  step-absent s closes_active key h n = elim (Option-cases s.active_key) [
    | inl e ↦ rw (e, close_active) h
    | inr (k, e) ↦ rw (e, close_active) (without-absent s.tabs k key h)
  ]
  step-absent s closes_all key h n = refl
  step-absent s (cycles dir now) key h n = cycle-absent s dir now key h

  run-absent :
      (s : TabsState Profile) (es : List (Event Profile)) (key : Text)
      → has (tab_keys s.tabs) key ≡ false
      → Unopened key es
      → has (tab_keys (run s es).tabs) key ≡ false
  unfolding run
  run-absent s [] key h u = h
  run-absent s (e ∷ es) key h u = run-absent (step s e) es key (step-absent s e key h u.0) u.1

  -- Where a transaction has no tab, as after its tab was closed: its answer, good or bad, changes
  -- nothing, however many other events come in between, as long as none of them opens that
  -- transaction again. The tab stays closed, and the other tabs and the view are as they were.
  pub late_answer :
      (s : TabsState Profile) (es : List (Event Profile)) (xlog : SXlog) (profile : Profile)
      (texts : List (ℕ × Text)) (msg : Text)
      → has (tab_keys s.tabs) xlog.txid ≡ false
      → Unopened xlog.txid es
      → let c = run s es in
        (has (tab_keys c.tabs) xlog.txid ≡ false)
        × (loaded c xlog profile texts ≡ c)
        × (failed c xlog msg ≡ c)
  unfolding loaded failed
  late_answer s es xlog profile texts msg h u =
      let e = run-absent s es xlog.txid h u in (e, rw e, rw e)
