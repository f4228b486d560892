-- ===== src/PastLoad.antt =====
-- features/xlog/api/pastXLog.ts: a past range is cut into slices, which are read page by page at the
-- same time. A slice's loop runs from one `await` to the next without a break, so a request's answer
-- is one step. The collector's pages are the input of these steps.
pub mod Slices
pub mod Pages
pub mod Ends
pub mod Live
mod Tests
use nscouter.Base.{
  leb, length, ℕ, zero, suc, min, max, Bool, true, false, not, Option, none, some, List, [], ◌+◌,
  ◌-◌, ◌*◌, ◌/◌, ◌||◌, ◌∷◌, ◌++◌, ◌==◌, if◌then◌else◌, nat_eq, list_eq, set,
}
use nscouter.Base.Int.{pos, negsuc}
use nscouter.Base.Numbers.{Number, milli, not_finite, round}
use nscouter.Base.Sets.{has, add}
use nscouter.Base.Text.{Text}
use nscouter.Columns.{XlogPack}

abbrev pub past_parallel : ℕ
past_parallel = 8

abbrev pub min_slice_ms : ℕ
min_slice_ms = 60_000

abbrev pub max_pages : ℕ
max_pages = 200

-- The new value of the module's `pastParallel`; `undefined` is not finite.
unfoldable pub set_past_parallel : Number → ℕ
unfolding round
set_past_parallel (milli (pos m)) = if leb 1000 m then min 16 (round m) else past_parallel
set_past_parallel (milli (negsuc m)) = past_parallel
set_past_parallel not_finite = past_parallel

abbrev pub slice_count : ℕ → ℕ → ℕ
slice_count parallel span = max 1 (min parallel ((span + (min_slice_ms - 1)) / min_slice_ms))

-- The slices from number `i` on, with `k` more to come.
unfoldable pub slices_from : ℕ → ℕ → ℕ → ℕ → ℕ → ℕ → List (ℕ × ℕ)
slices_from stime etime span n i zero = []
slices_from stime etime span n i (suc k) =
    (stime + span * i / n, if i == n - 1 then etime else stime + span * (i + 1) / n)
    ∷ slices_from stime etime span n (i + 1) k

unfoldable pub plan_slices : ℕ → ℕ → ℕ → List (ℕ × ℕ)
plan_slices parallel stime etime =
    let n = slice_count parallel (etime - stime) in slices_from stime etime (etime - stime) n 0 n

pub record PastCursor : Type 0 where
  pub has_more : Bool
  pub last_txid : ℕ
  pub last_xlog_time : ℕ

pub record Page : Type 0 where
  pub xlogs : List XlogPack
  pub cursor : PastCursor

-- A slice whose request is out, with the cursor that it was asked by, or one whose loop returned.
pub data Worker : Type 0 where
  waiting : Option PastCursor → Worker
  ended : Worker

-- `shown` are the rows that `onProgress` was given so far; `rejected` is that of `Promise.all`.
pub record Load : Type 0 where
  pub seen : List Text
  pub pages : ℕ
  pub loaded : ℕ
  pub capped : Bool
  pub aborted : Bool
  pub rejected : Bool
  pub shown : List XlogPack
  pub workers : List Worker

-- The loop from its head to the `await`.
unfoldable pub turn : Load → Option PastCursor → Load × Worker
turn s cursor =
    if s.aborted || s.capped
    then (s, ended)
    else if leb max_pages s.pages
    then (record s { capped = true }, ended)
    else (record s { pages = s.pages + 1 }, waiting cursor)

-- `seen` and `fresh` after the rows of a page.
unfoldable pub take_rows : List Text → List XlogPack → List Text × List XlogPack
take_rows seen [] = (seen, [])
take_rows seen (x ∷ xs) = elim (has seen x.txid) [
  | true ↦ take_rows seen xs
  | false ↦ let r = take_rows (add seen x.txid) xs in (r.0, x ∷ r.1)
]

abbrev pub is_stuck : Option PastCursor → PastCursor → Bool
is_stuck none next = false
is_stuck (some c) next = next.last_xlog_time == c.last_xlog_time

abbrev pub show_page : Load → Page → Load
show_page s page =
    let r = take_rows s.seen page.xlogs in
    record s { seen = r.0; loaded = s.loaded + length r.1; shown = s.shown ++ r.1 }

-- From the `await` on, to the next one or to the end.
unfoldable pub arrive : Load → Option PastCursor → Page → Load × Worker
arrive s cursor page =
    if s.aborted
    then (s, ended)
    else if not page.cursor.has_more || is_stuck cursor page.cursor
    then (show_page s page, ended)
    else turn (show_page s page) (some page.cursor)

abbrev pub put_worker : ℕ → Load × Worker → Load
put_worker i (s, w) = record s { workers = set s.workers i w }

-- `Promise.all` starts the slices in turn, each up to its first `await`.
unfoldable pub start_from : Load → List (ℕ × ℕ) → Load
start_from s [] = s
start_from s (slice ∷ rest) =
    let r = turn s none in start_from (record (r.0) { workers = r.0.workers ++ r.1 ∷ [] }) rest

abbrev no_load : Load
no_load = record {
  seen = [];
  pages = 0;
  loaded = 0;
  capped = false;
  aborted = false;
  rejected = false;
  shown = [];
  workers = [];
}

unfoldable pub start : List (ℕ × ℕ) → Load
start slices = start_from no_load slices

-- What happens to one answer: a page, or `none` for an error of the request.
unfoldable pub answer : Load → ℕ → Option PastCursor → Option Page → Load
answer s i cursor (some page) = put_worker i (arrive s cursor page)
answer s i cursor none = record s { rejected = true; workers = set s.workers i ended }

-- The last report, when every loop has returned: the pages, the rows and `truncated`.
unfoldable pub finish : Load → Option (ℕ × ℕ × Bool)
finish s = if s.aborted || s.rejected then none else some (s.pages, s.loaded, s.capped)
