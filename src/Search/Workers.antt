-- ===== src/Search/Workers.antt =====
-- `searchAll` of hooks/wideSearchAll.ts: workers take one piece after the other and read it page by
-- page. A worker runs from one `await` to the next without a break, so what it does with an answer
-- is one step. `objectsOf` is asked once for each date, since its promise is kept: what it comes to
-- is a function of the date, `none` where it fails. Whether the user has cancelled is asked anew each
-- time, so it is an input of a step.
use nscouter.Base.Sorts.{sort_up}
use nscouter.Base.{
  leb, length, get_elem?, replicate, ℕ, zero, suc, min, max, Bool, true, false, Option, none, some,
  List, [], map, ◌+◌, ◌-◌, ◌∷◌, ◌++◌, ◌==◌, if◌then◌else◌, nat_eq, list_eq, set,
}
use nscouter.Base.Sets.{add}
use nscouter.Base.Text.{Text}
use nscouter.Columns.{XlogPack}
use nscouter.PastLoad.{PastCursor, take_rows}
use nscouter.Search.{Piece}

pub record WidePage : Type 0 where
  pub xlogs : List XlogPack
  pub cursor : PastCursor
  pub done : Bool
  pub scanned : ℕ

pub data Cut : Type 0 where
  at_cap : Cut
  cancelled : Cut

-- What one search is given: `map`, `cap`, the pieces, `filter.objHash` and `objectsOf`.
pub record WideQuery (T : Type 0) : Type 0 where
  pub convert : XlogPack → T
  pub most : ℕ
  pub pieces : List Piece
  pub obj_hash : ℕ
  pub objects_of : Text → Option (List ℕ)

-- A worker that waits for the objects of its piece, or for a page, or whose loop returned.
pub data WideWorker : Type 0 where
  asks : ℕ → WideWorker
  fetches : ℕ → List ℕ → Option PastCursor → WideWorker
  returned : WideWorker

-- `dates` are the keys of `hashesByDate`; `rejected` is that of `Promise.all`.
pub record Wide (T : Type 0) : Type 0 where
  pub seen : List Text
  pub out : List (ℕ × T)
  pub dates : List Text
  pub next : ℕ
  pub done_ms : ℕ
  pub requests : ℕ
  pub stop : Option Cut
  pub finished : List Bool
  pub rejected : Bool
  pub workers : List WideWorker

pub record WideResult (T : Type 0) : Type 0 where
  pub xlogs : List T
  pub cut : Option Cut
  pub stopped_at : Option ℕ
  pub requests : ℕ

-- `stop ??= c`.
abbrev pub or_stop : Option Cut → Cut → Option Cut
or_stop none c = some c
or_stop (some b) c = some b

-- The last edge up to which every piece is finished.
unfoldable pub edge_from : ℕ → List Piece → List Bool → ℕ
edge_from at [] fs = at
edge_from at (pc ∷ pieces) [] = at
edge_from at (pc ∷ pieces) (f ∷ fs) = if f then edge_from pc.e pieces fs else at

module _ {T : Type 0} (q : WideQuery T) where
  abbrev pub wide_hashes : ℕ → Option (List ℕ)
  wide_hashes i =
      if q.obj_hash == 0
      then elim (get_elem? q.pieces i) [ none ↦ none | some pc ↦ q.objects_of pc.date ]
      else some (q.obj_hash ∷ [])

  -- The head of the `while` loop, up to the first `await`; given `stop` and the next piece.
  abbrev pub take_next : Option Cut → Option Piece → Wide T → Wide T × WideWorker
  take_next (some c) next s = (s, returned)
  take_next none none s = (s, returned)
  take_next none (some pc) s = (
    record s {
      next = s.next + 1;
      dates = if q.obj_hash == 0 then add s.dates pc.date else s.dates;
    },
    asks s.next,
  )

  unfoldable pub take_piece : Wide T → Wide T × WideWorker
  take_piece s = take_next s.stop (get_elem? q.pieces s.next) s

  -- The head of the inner loop, up to its `await`; given `stop` after the user was asked.
  abbrev pub ask_next : Option Cut → Wide T → ℕ → List ℕ → Option PastCursor → Wide T × WideWorker
  ask_next (some c) s i hashes cursor = (record s { stop = some c }, returned)
  ask_next none s i hashes cursor = (record s { stop = none }, fetches i hashes cursor)

  unfoldable pub ask_page : Wide T → Bool → ℕ → List ℕ → Option PastCursor → Wide T × WideWorker
  ask_page s is_cancelled i hashes cursor =
      ask_next (if is_cancelled then or_stop s.stop cancelled else s.stop) s i hashes cursor

  abbrev pub push_rows : Wide T → WidePage → Wide T
  push_rows s page =
      let r = take_rows s.seen page.xlogs in
      record s {
        requests = s.requests + 1;
        seen = r.0;
        out = s.out ++ map (λ x. (x.end_time, q.convert x)) r.1;
      }

  abbrev pub span_of : ℕ → ℕ
  span_of i = elim (get_elem? q.pieces i) [ none ↦ 0 | some pc ↦ pc.e - pc.s ]

  abbrev pub stop_at_cap : Wide T → Wide T
  stop_at_cap s = record s {
    stop = if leb q.most (length s.out) then or_stop s.stop at_cap else s.stop;
  }

  -- After the inner loop.
  unfoldable pub finish_piece : Wide T → ℕ → Wide T
  finish_piece s i =
      stop_at_cap (record s { finished = set s.finished i true; done_ms = s.done_ms + span_of i })

  -- From the answer of a page to the next `await`.
  unfoldable pub page_in : Wide T → Bool → ℕ → List ℕ → WidePage → Wide T × WideWorker
  page_in s is_cancelled i hashes page =
      let s1 = push_rows s page in
      if page.done
      then take_piece (finish_piece s1 i)
      else if leb q.most (length s1.out)
      then (stop_at_cap s1, returned)
      else ask_page s1 is_cancelled i hashes (some page.cursor)

  abbrev pub put_wide : ℕ → Wide T × WideWorker → Wide T
  put_wide j (s, w) = record s { workers = set s.workers j w }

  abbrev pub reject : Wide T → ℕ → Wide T
  reject s j = record s { rejected = true; workers = set s.workers j returned }

  -- What worker `j` does when the objects of its piece come.
  unfoldable pub hashes_come : Wide T → ℕ → Bool → ℕ → Wide T
  hashes_come s j is_cancelled i = elim (wide_hashes i) [
    | none ↦ reject s j
    | some hashes ↦ put_wide j (ask_page s is_cancelled i hashes none)
  ]

  -- What it does when a page comes, or an error in place of one.
  unfoldable pub page_comes : Wide T → ℕ → Bool → ℕ → List ℕ → Option WidePage → Wide T
  page_comes s j is_cancelled i hashes none = reject s j
  page_comes s j is_cancelled i hashes (some page) =
      put_wide j (page_in s is_cancelled i hashes page)

  unfoldable pub start_workers : Wide T → ℕ → Wide T
  start_workers s zero = s
  start_workers s (suc k) =
      let r = take_piece s in start_workers (record (r.0) { workers = r.0.workers ++ r.1 ∷ [] }) k

  abbrev pub no_search : Wide T
  no_search = record {
    seen = [];
    out = [];
    dates = [];
    next = 0;
    done_ms = 0;
    requests = 0;
    stop = none;
    finished = replicate (length q.pieces) false;
    rejected = false;
    workers = [];
  }

  unfoldable pub start_search : ℕ → Wide T
  start_search parallel = start_workers no_search (min (max 1 parallel) (max 1 (length q.pieces)))

  abbrev pub up_to : ℕ → List (ℕ × T) → List (ℕ × T)
  up_to at [] = []
  up_to at (o ∷ out) = if leb o.0 at then o ∷ up_to at out else up_to at out

  abbrev pub kept : Option ℕ → List (ℕ × T) → List (ℕ × T)
  kept none out = out
  kept (some at) out = up_to at out

  abbrev pub stopped_at_of : ℕ → Wide T → Option ℕ
  stopped_at_of stime s = elim s.stop [
    | none ↦ none
    | some c ↦ some (edge_from stime q.pieces s.finished)
  ]

  abbrev pub result_of : Option ℕ → Wide T → WideResult T
  result_of stopped_at s = record {
    xlogs = map (λ o. o.1) (sort_up (λ o. o.0) (kept stopped_at s.out));
    cut = s.stop;
    stopped_at = stopped_at;
    requests = s.requests;
  }

  -- When every worker has returned; `none` where one of them failed.
  unfoldable pub finish_search : ℕ → Wide T → Option (WideResult T)
  finish_search stime s = if s.rejected then none else some (result_of (stopped_at_of stime s) s)
