-- ===== src/Fetch/Window.antt =====
-- Moving a past window fetches what is missing and nothing that is held.
use nscouter.Base.{
  ℕ, inl, Bool, true, false, Option, none, some, List, [], arith, ◌+◌, ◌-◌, ◌≤◌, ◌≡◌, ◌⊎◌, ◌∷◌,
  nat_eq, list_eq,
}
use nscouter.Xlog.{PastRange}
use nscouter.Fetch.{plan_fetch, fetch_span}

-- `t` lies in the range, its ends included.
abbrev pub In : ℕ → PastRange → Type 0
In t r = (r.stime ≤ t) × (t ≤ r.etime)

abbrev pub InSome : ℕ → List PastRange → Type 0
InSome t [] = ⊥
InSome t (r ∷ rs) = In t r ⊎ InSome t rs

-- What is held before the fetches of a plan.
abbrev pub Held : ℕ → Option PastRange → Bool → Type 0
Held t none reset = ⊥
Held t (some loaded) true = ⊥
Held t (some loaded) false = In t loaded

abbrev pub IsForward : Option PastRange → Type 0
IsForward none = Unit
IsForward (some r) = r.stime ≤ r.etime

-- After the fetches, what is held is exactly what the plan says is loaded: no moment of it is
-- missing, and none is held beyond it. (Ranges run forward.)
pub plan_fetch-loaded :
    (view : PastRange) (loaded : Option PastRange) (t : ℕ)
    → view.stime ≤ view.etime
    → IsForward loaded
    → let plan = plan_fetch view loaded in
      (In t plan.loaded → InSome t plan.fetch ⊎ Held t loaded plan.reset)
      × (InSome t plan.fetch ⊎ Held t loaded plan.reset → In t plan.loaded)
unfolding plan_fetch
plan_fetch-loaded view none t f g = (λ i. inl (inl i), λ i. ground arith)
plan_fetch-loaded view (some loaded) t f g = (λ i. ground arith, λ i. ground arith)

-- The view is inside what is loaded, and what is loaded runs forward again.
pub plan_fetch-view :
    (view : PastRange) (loaded : Option PastRange)
    → view.stime ≤ view.etime
    → IsForward loaded
    → let plan = plan_fetch view loaded in
      (plan.loaded.stime ≤ view.stime)
      × (view.etime ≤ plan.loaded.etime)
      × (plan.loaded.stime ≤ plan.loaded.etime)
unfolding plan_fetch
plan_fetch-view view none f g = ground arith
plan_fetch-view view (some loaded) f g = ground arith

-- When nothing is thrown away, the time to fetch is exactly what the loaded range grows by.
pub fetch_span-plan_fetch :
    (view loaded : PastRange)
    → view.stime ≤ view.etime
    → loaded.stime ≤ loaded.etime
    → (plan_fetch view (some loaded)).reset ≡ false
    → let plan = plan_fetch view (some loaded) in
      fetch_span plan + (loaded.etime - loaded.stime) ≡ plan.loaded.etime - plan.loaded.stime
unfolding plan_fetch fetch_span
fetch_span-plan_fetch view loaded f g h = ground arith
