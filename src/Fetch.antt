-- ===== src/Fetch.antt =====
-- features/xlog/types/pastWindow.ts and backfill.ts: which ranges are still to be fetched.
pub mod Window
pub mod Backfill
mod Tests
use nscouter.Base.{
  ltb, leb, length, ℕ, min, max, Bool, true, false, Option, none, some, List, [], ◌+◌, ◌-◌, ◌&&◌,
  ◌||◌, ◌∷◌, ◌++◌, ◌==◌, if◌then◌else◌, nat_eq, list_eq,
}
use nscouter.Base.Sets.{has, add_all}
use nscouter.Xlog.{PastRange}

pub record FetchPlan : Type 0 where
  pub reset : Bool
  pub fetch : List PastRange
  pub loaded : PastRange

abbrev range : ℕ → ℕ → PastRange
range s e = record { stime = s; etime = e }

abbrev left_part : PastRange → PastRange → List PastRange
left_part view loaded =
    if ltb view.stime loaded.stime then range view.stime loaded.stime ∷ [] else []

abbrev right_part : PastRange → PastRange → List PastRange
right_part view loaded =
    if ltb loaded.etime view.etime then range loaded.etime view.etime ∷ [] else []

pub plan_fetch : PastRange → Option PastRange → FetchPlan
plan_fetch view none = record { reset = true; fetch = view ∷ []; loaded = view }
plan_fetch view (some loaded) =
    if leb loaded.stime view.stime && leb view.etime loaded.etime
    then record { reset = false; fetch = []; loaded = loaded }
    else if ltb view.etime loaded.stime || ltb loaded.etime view.stime
    then record { reset = true; fetch = view ∷ []; loaded = view }
    else record {
      reset = false;
      fetch = left_part view loaded ++ right_part view loaded;
      loaded = range (min view.stime loaded.stime) (max view.etime loaded.etime);
    }

abbrev span_sum : List PastRange → ℕ
span_sum [] = 0
span_sum (r ∷ rs) = (r.etime - r.stime) + span_sum rs

-- A range runs forward, so `etime - stime` is not negative.
pub fetch_span : FetchPlan → ℕ
fetch_span plan = span_sum plan.fetch

pub record BackfillCoverage : Type 0 where
  pub hashes : List ℕ

pub record BackfillJob : Type 0 where
  pub stime : ℕ
  pub etime : ℕ
  pub obj_hashes : List ℕ

pub record BackfillPlan : Type 0 where
  pub jobs : List BackfillJob
  pub next : BackfillCoverage

abbrev pub min_backfill_ms : ℕ
min_backfill_ms = 5_000

pub record BackfillInput : Type 0 where
  pub now : ℕ
  pub time_range_ms : ℕ
  pub hashes : List ℕ
  pub covered : Option BackfillCoverage
  pub oldest : Option ℕ
  pub oldest_fresh : Option ℕ

abbrev or_now : Option ℕ → ℕ → ℕ
or_now none now = now
or_now (some t) now = t

-- `hashes.filter(h => known.has(h))`, and the rest.
abbrev pub known_part : List ℕ → List ℕ → List ℕ
known_part known [] = []
known_part known (h ∷ hs) = if has known h then h ∷ known_part known hs else known_part known hs

abbrev pub fresh_part : List ℕ → List ℕ → List ℕ
fresh_part known [] = []
fresh_part known (h ∷ hs) = if has known h then fresh_part known hs else h ∷ fresh_part known hs

abbrev pub known_of : Option BackfillCoverage → List ℕ
known_of none = []
known_of (some c) = add_all [] c.hashes

abbrev pub fresh_of : Option BackfillCoverage → List ℕ → List ℕ
fresh_of none hashes = []
fresh_of (some c) hashes = fresh_part (add_all [] c.hashes) hashes

abbrev pub old_of : Option BackfillCoverage → List ℕ → List ℕ
old_of none hashes = hashes
old_of (some c) hashes = known_part (add_all [] c.hashes) hashes

-- `edge - start >= MIN_BACKFILL_MS`, with no subtraction.
abbrev job : ℕ → ℕ → List ℕ → List BackfillJob
job start edge hashes =
    if ltb 0 (length hashes) && leb (start + min_backfill_ms) edge
    then record { stime = start; etime = edge; obj_hashes = hashes } ∷ []
    else []

abbrev kept_coverage : Option BackfillCoverage → BackfillCoverage
kept_coverage none = record { hashes = [] }
kept_coverage (some c) = c

-- `day_start` is local midnight, which hangs on the time zone.
pub plan_backfill : (ℕ → ℕ) → BackfillInput → BackfillPlan
plan_backfill day_start input =
    let start = max (input.now - input.time_range_ms) (day_start input.now) in
    if length input.hashes == 0
    then record { jobs = []; next = kept_coverage input.covered }
    else record {
      jobs =
          job start (or_now input.oldest_fresh input.now) (fresh_of input.covered input.hashes)
          ++ job start (or_now input.oldest input.now) (old_of input.covered input.hashes);
      next = record { hashes = add_all (known_of input.covered) input.hashes };
    }
