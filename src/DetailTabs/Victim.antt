-- ===== src/DetailTabs/Victim.antt =====
-- Which tab is closed when an eighth neighbour would become a ninth.
use nscouter.Base.{
  ltb, Bool-cases, length, ℕ, refl, sym, inl, inr, true, false, Option, none, some, List, [], arith,
  list_eq, ◌≤◌, ◌<◌, ◌≡◌, ◌⊎◌, ◌∷◌, ◌===◌, nat_eq,
}
use nscouter.Base.Sets.{has, Distinct}
use nscouter.Base.Text.{Text}
use nscouter.DetailTabs.{DetailTab, tab_keys, is_key, victim_from}

module _ {Profile : Type 0} where
  -- Every tab but the active one was seen at `time` or later.
  abbrev pub SeenSince : Option Text → ℕ → List (DetailTab Profile) → Type 0
  SeenSince active time [] = Unit
  SeenSince active time (t ∷ ts) =
      (is_key active t.key ≡ false → time ≤ t.touched_at) × SeenSince active time ts

  SeenSince-mono :
      {m n : ℕ} (active : Option Text) (ts : List (DetailTab Profile))
      → m ≤ n
      → SeenSince active n ts
      → SeenSince active m ts
  SeenSince-mono active [] h s = tt
  SeenSince-mono active (t ∷ ts) h s = (λ e. ground (arith, s.0 e), SeenSince-mono active ts h s.1)

  abbrev pub Listed : DetailTab Profile → List (DetailTab Profile) → Type 0
  Listed v [] = ⊥
  Listed v (t ∷ ts) = (t ≡ v) ⊎ Listed v ts

  pub Listed-has :
      (v : DetailTab Profile) (ts : List (DetailTab Profile))
      → Listed v ts
      → has (tab_keys ts) v.key ≡ true
  Listed-has v [] l = elim l [ ]
  Listed-has v (t ∷ ts) (inl e) = rw (← e) (ground (arith, (list_eq {A = ℕ}).beq_iff t.key t.key))
  Listed-has v (t ∷ ts) (inr l) = ground (arith, Listed-has v ts l)

  from_first :
      (v u : DetailTab Profile) (us : List (DetailTab Profile)) (a : Option Text)
      → is_key a u.key ≡ false
      → (v ≡ u) ⊎ (is_key a v.key ≡ false) × Listed v us
      → (is_key a v.key ≡ false) × Listed v (u ∷ us)
  from_first v u us a e (inl p) = (rw p e, inl (sym p))
  from_first v u us a e (inr p) = (p.0, inr p.1)

  -- The fold from a candidate gives it, or an inactive tab, whichever was seen longest ago.
  victim_some :
      (active : Option Text) (o : DetailTab Profile) (ts : List (DetailTab Profile))
      → (v : DetailTab Profile) × (victim_from active (some o) ts ≡ some v)
        × (v.touched_at ≤ o.touched_at)
        × SeenSince active v.touched_at ts
        × ((v ≡ o) ⊎ (is_key active v.key ≡ false) × Listed v ts)
  unfolding victim_from
  victim_some active o [] = (o, refl, omega arith, tt, inl refl)
  victim_some active o (t ∷ ts) = elim (Bool-cases (is_key active t.key)) [
    | inl e ↦
        let (v, f, le, all, at) = victim_some active o ts in
        rw e (v, f, le, (λ h. absurd (cc), all), ground arith)
    | inr e ↦ elim (Bool-cases (ltb t.touched_at o.touched_at)) [
      | inl l ↦
          let (v, f, le, all, at) = victim_some active t ts in
          rw (e, l) (v, f, ground arith, (λ h. le, all), inr (from_first v t ts active e at))
      | inr g ↦
          let (v, f, le, all, at) = victim_some active o ts in
          rw (e, g) (v, f, le, (λ h. ground arith, all), ground arith)
    ]
  ]

  -- Among tabs that are not all active there is a victim: an inactive tab, and none was left
  -- unseen for longer.
  pub victim_lem :
      (active : Option Text) (ts : List (DetailTab Profile))
      → Distinct (tab_keys ts)
      → 1 < length ts
      → (v : DetailTab Profile) × (victim_from active none ts ≡ some v)
        × (is_key active v.key ≡ false)
        × Listed v ts
        × SeenSince active v.touched_at ts
  unfolding victim_from
  victim_lem active [] d h = elim h [ ]
  victim_lem active (t ∷ []) d h = absurd (omega arith)
  victim_lem active (t ∷ (u ∷ ts)) d h = elim (Bool-cases (is_key active t.key)) [
    | inl e ↦
        let other : is_key active u.key ≡ false = other_key active t.key u.key e (ground arith) in
        let (v, f, le, all, at) = victim_some active u ts in
        let (k, l) = from_first v u ts active other at in
        rw (e, other) (v, f, k, inr l, (λ i. absurd (cc), (λ i. le, all)))
    | inr e ↦
        let (v, f, le, all, at) = victim_some active t (u ∷ ts) in
        let (k, l) = from_first v t (u ∷ ts) active e at in rw e (v, f, k, l, (λ i. le, all))
  ]
    where
      other_key :
          (a : Option Text) (j k : Text)
          → is_key a j ≡ true
          → (k === j) ≡ false
          → is_key a k ≡ false
      other_key none j k e f = cc
      other_key (some i) j k e f = ground (
        arith,
        (list_eq {A = ℕ}).beq_iff j i,
        (list_eq {A = ℕ}).beq_iff k i,
        (list_eq {A = ℕ}).beq_iff k j,
      )
