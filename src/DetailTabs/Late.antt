-- ===== src/DetailTabs/Late.antt =====
-- The tab that is closed to make room, and cycling.
use nscouter.Base.{
  ltb, Bool-cases, length, get_elem?, ℕ, zero, suc, refl, sym, ap, inl, inr, false, Option, none,
  some, List, [], arith, ◌+◌, ◌-◌, ◌%◌, ◌<◌, ◌≡◌, ◌∙◌, ◌∷◌, ◌++◌, ◌==◌, nat_eq, list_eq,
}
use nscouter.Base.Sets.{has, Distinct}
use nscouter.Base.Arrays.{index_of-some, index_of-get_elem?, get_elem?-some}
use nscouter.Base.Text.{Text}
use nscouter.Xlog.{SXlog}
use native.Mathlib.Nat.{mod_self, mod-eq_of_lt, add-mod_right}
use nscouter.DetailTabs.Victim.{Listed, SeenSince}
use nscouter.DetailTabs.WellFormed.{
  WellFormed, IsCurrent, length-tab_keys, tab_keys-update, make_room_cases,
}
use nscouter.DetailTabs.Events.{next_index-lt, cycle-WellFormed}
use nscouter.DetailTabs.{
  DetailTab, TabsState, Dir, forward, backward, tab_keys, without_key, touch, is_key, open_xlog,
  cycle, next_index, active_index, seed,
}

module _ {Profile : Type 0} where
  -- A ninth transaction closes one tab: not the active one, and one of those that were not seen for
  -- longest. All others stay, in their order, and the new tab comes last.
  pub open_xlog_full :
      (s : TabsState Profile) (xlog : SXlog) (now : ℕ)
      → WellFormed s
      → length s.tabs ≡ 8
      → has (tab_keys s.tabs) xlog.txid ≡ false
      → (v : DetailTab Profile) × ((open_xlog s xlog now).tabs
          ≡ without_key s.tabs v.key ++ seed xlog now ∷ [])
        × Listed v s.tabs
        × (is_key s.active_key v.key ≡ false)
        × SeenSince s.active_key v.touched_at s.tabs
  unfolding open_xlog
  open_xlog_full s xlog now w full new = elim (make_room_cases s w) [
    | inl (few, _) ↦ absurd (omega arith)
    | inr (v, e, _, k, l, o) ↦ rw (new, e) (v, refl, l, k, o)
  ]

mod_twice : (m n : ℕ) → m < n → (m % n + n) % n ≡ m
mod_twice m n h = add-mod_right (m % n) n ∙ ap (λ x. x % n) (mod-eq_of_lt h) ∙ mod-eq_of_lt h

back_wraps : (n : ℕ) → next_index backward 0 (suc n) ≡ n
back_wraps zero = refl
back_wraps (suc n) =
    let one : 1 % suc (suc n) ≡ 1 = mod-eq_of_lt (omega arith) in
    let less : suc (suc n) - 1 ≡ suc n = omega arith in rw (one, less) (mod-eq_of_lt (omega arith))

-- In a row of tabs the index that is one to the right has the first one on its left.
next_there_back : (i n : ℕ) → i < n → next_index backward (next_index forward i n) n ≡ i
next_there_back i n h = elim (Bool-cases (ltb (suc i) n)) [
  | inl e ↦
      let f : next_index forward i n ≡ suc i =
        ap (λ x. (x % n + n) % n) one ∙ mod_twice (suc i) n (ground arith) in
      rw f (mod_twice i n h)
  | inr e ↦
      let last : suc i ≡ n = ground arith in
      let f : next_index forward i n ≡ 0 =
        ap (λ x. (x % n + n) % n) (one ∙ last)
        ∙ add-mod_right (n % n) n
        ∙ ap (λ x. x % n) (mod_self n)
        ∙ mod-eq_of_lt (omega arith) in
      rw (f, sym last) (back_wraps i)
]
  where
    one : i + 1 ≡ suc i
    one = omega arith

index_at :
    (keys ks : List Text) (active : Option Text) (k : Text) (j : ℕ)
    → ks ≡ keys
    → active ≡ some k
    → Distinct keys
    → get_elem? keys j ≡ some k
    → active_index ks active ≡ j
index_at keys ks active k j e a d g = rw (a, e, index_of-get_elem? keys j k d g, active_index) refl

module _ {Profile : Type 0} where
  cycle_key :
      (s : TabsState Profile) (dir : Dir) (now i : ℕ)
      → WellFormed s
      → 0 < length s.tabs
      → active_index (tab_keys s.tabs) s.active_key ≡ i
      → (k : Text) × (tab_keys (cycle s dir now).tabs ≡ tab_keys s.tabs)
        × ((cycle s dir now).active_key ≡ some k)
        × (get_elem? (tab_keys s.tabs) (next_index dir i (length s.tabs)) ≡ some k)
  unfolding cycle
  cycle_key s dir now i w h a =
      let e : (length s.tabs == 0) ≡ false = ground arith in
      let less : next_index dir i (length s.tabs) < length (tab_keys s.tabs) =
        rw length-tab_keys (next_index-lt dir i (length s.tabs) h) in
      let (k, f, _) = get_elem?-some (tab_keys s.tabs) _ less in
      rw (e, a, f) (k, tab_keys-update s.tabs k (touch now) (λ t. refl), refl, refl)

  current_index :
      (s : TabsState Profile)
      → WellFormed s
      → 0 < length s.tabs
      → (i : ℕ) × (k : Text) × (s.active_key ≡ some k)
        × (active_index (tab_keys s.tabs) s.active_key ≡ i)
        × (i < length s.tabs)
        × (get_elem? (tab_keys s.tabs) i ≡ some k)
  current_index s w h = named s.active_key w.current
    where
      named :
          (active : Option Text)
          → IsCurrent (tab_keys s.tabs) active
          → (i : ℕ) × (k : Text) × (active ≡ some k)
            × (active_index (tab_keys s.tabs) active ≡ i)
            × (i < length s.tabs)
            × (get_elem? (tab_keys s.tabs) i ≡ some k)
      named none c =
          let l : length (tab_keys s.tabs) ≡ 0 = ap length c in
          absurd (omega (arith, length-tab_keys s.tabs))
      named (some k) c =
          let (i, f, l, g) = index_of-some (tab_keys s.tabs) k c in
          (i, k, refl, rw (f, active_index) refl, omega (arith, length-tab_keys s.tabs), g)

  -- In a row of open tabs that is not empty, a move to the next tab and one back show the tab that was
  -- active before, at both ends of the row too, and open and close none.
  pub cycle-cycle :
      (s : TabsState Profile) (now later : ℕ)
      → WellFormed s
      → 0 < length s.tabs
      → let r = cycle (cycle s forward now) backward later in
        (r.active_key ≡ s.active_key) × (tab_keys r.tabs ≡ tab_keys s.tabs)
  cycle-cycle s now later w h =
      let (i, k, a, b, l, g) = current_index s w h in
      let next = cycle s forward now in
      let j = next_index forward i (length s.tabs) in
      let (k', ks, a', g') = cycle_key s forward now i w h b in
      let same : length next.tabs ≡ length s.tabs =
        sym (length-tab_keys next.tabs) ∙ ap length ks ∙ length-tab_keys s.tabs in
      let at : active_index (tab_keys next.tabs) next.active_key ≡ j =
        index_at (tab_keys s.tabs) _ _ k' j ks a' w.distinct g' in
      let (k'', ks', a'', g'') =
        cycle_key next backward later j (cycle-WellFormed s forward now w) (rw same h) at in
      let back : get_elem? (tab_keys s.tabs) i ≡ some k'' =
        rw (ks, same, next_there_back i (length s.tabs) l) at g'' in
      (a'' ∙ sym back ∙ g ∙ sym a, ks' ∙ ks)
