-- ===== src/Fetch/Tests.antt =====
-- Plans on small ranges.
use nscouter.Base.Sets.{add_all, add}
use nscouter.Fetch.{plan_backfill, plan_fetch, BackfillInput}
use nscouter.Xlog.{PastRange}
use nscouter.Base.{
  ℕ, refl, Bool, false, some, [], arith, ◌≡◌, ◌⊎◌, ◌&&◌, ◌∷◌, ◌==◌, nat_eq, list_eq,
}
use nscouter.Fetch.Window.{In, InSome, Held, plan_fetch-loaded}

abbrev from_to : ℕ → ℕ → PastRange
from_to s e = record { stime = s; etime = e }

-- Panning to the right: only the new strip is fetched.
panned : (plan_fetch (from_to 200 500) (some (from_to 100 400))).fetch ≡ from_to 400 500 ∷ []
unfolding plan_fetch
panned = refl

plan_fetch-loaded_example :
    let plan = plan_fetch (from_to 200 500) (some (from_to 100 400)) in
    (In 450 plan.loaded → InSome 450 plan.fetch ⊎ Held 450 (some (from_to 100 400)) plan.reset)
    × (InSome 450 plan.fetch ⊎ Held 450 (some (from_to 100 400)) plan.reset → In 450 plan.loaded)
plan_fetch-loaded_example =
    plan_fetch-loaded (from_to 200 500) (some (from_to 100 400)) 450 (omega arith) (omega arith)

kept_lem : (plan_fetch (from_to 50 500) (some (from_to 100 400))).reset ≡ false
unfolding plan_fetch
kept_lem = refl

-- A server is added to one that is covered back to 40_000.
abbrev added : BackfillInput
added = record {
  now = 100_000;
  time_range_ms = 60_000;
  hashes = 1 ∷ 2 ∷ [];
  covered = some (record { hashes = 1 ∷ [] });
  oldest = some 42_000;
  oldest_fresh = some 95_000;
}

abbrev day : ℕ → ℕ
day now = 30_000

added_jobs :
    (plan_backfill day added).jobs
    ≡ record { stime = 40_000; etime = 95_000; obj_hashes = 2 ∷ [] } ∷ []
unfolding plan_backfill add_all add
added_jobs = refl

abbrev this_job : ℕ → ℕ → Bool
this_job s e = (s == 40_000) && (e == 95_000)
