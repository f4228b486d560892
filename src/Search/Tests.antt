-- ===== src/Search/Tests.antt =====
-- A search over the end of a day of a thousand milliseconds.
use nscouter.Search.Held.{all_returned}
use nscouter.Search.Runs.{Run, objects_come, answers, stays}
use nscouter.PastLoad.{take_rows}
use nscouter.PastLoad.Pages.{txids}
use nscouter.Search.Rows.{rows_up_to, first_rows, all_rows, pages_count, search_all_rows}
use nscouter.Columns.Samples.{pack_of}
use nscouter.Columns.{XlogPack}
use nscouter.Base.Sorts.{sort_up, insert_up}
use nscouter.Search.Complete.{last_came, search_all_complete}
use nscouter.Search.Workers.{
  WidePage, WideQuery, start_search, WideResult, Wide, at_cap, hashes_come, start_workers,
  page_comes, take_piece, ask_page, page_in, finish_piece, finish_search, edge_from,
}
use nscouter.Base.{
  length, get_elem?, ℕ, refl, true, false, Option, none, some, List, [], map, arith, ◌+◌, ◌*◌, ◌/◌,
  ◌<◌, ◌≡◌, ◌∷◌, nat_eq, list_eq,
}
use native.Mathlib.Nat.{div-add-mod, mod-lt}
use nscouter.Base.Sets.{add, add_all}
use nscouter.Base.Text.{Text}
use nscouter.Search.{plan_pieces, pieces_from}
use nscouter.Search.Pieces.{plan_pieces-Tiles, Tiles}

abbrev next_day : ℕ → ℕ
next_day t = (t / 1000 + 1) * 1000

abbrev day_name : ℕ → Text
day_name t = t / 1000 ∷ []

next_day-later : (t : ℕ) → t < next_day t
next_day-later t = omega (arith, div-add-mod t 1000, mod-lt t {m = 1000} (omega arith))

three_pieces : length (plan_pieces next_day day_name 600 1500 400) ≡ 3
unfolding plan_pieces pieces_from
three_pieces = refl

plan_pieces-Tiles_example :
    Tiles next_day day_name 600 1500 400 (plan_pieces next_day day_name 600 1500 400)
plan_pieces-Tiles_example = plan_pieces-Tiles next_day day_name 600 1500 400 next_day-later

-- Two workers with a cap of two rows: the second piece is read first, and the first one brings the
-- second row, so that the third piece is left.
abbrev two_days : WideQuery ℕ
two_days = record {
  convert = λ x. x.end_time;
  most = 2;
  pieces = plan_pieces next_day day_name 600 1500 400;
  obj_hash = 0;
  objects_of = λ day. some (1 ∷ 2 ∷ []);
}

abbrev page_of : List XlogPack → WidePage
page_of xlogs = record {
  xlogs = xlogs;
  cursor = record { has_more = false; last_txid = 0; last_xlog_time = 0 };
  done = true;
  scanned = 5;
}

abbrev late_page : WidePage
late_page = page_of (pack_of 2 1000 ∷ [])

abbrev early_page : WidePage
early_page = page_of (pack_of 2 1000 ∷ pack_of 1 700 ∷ [])

abbrev came : List (ℕ × Option WidePage)
came = (1, some late_page) ∷ (0, some early_page) ∷ []

abbrev both_ask : Wide ℕ
both_ask = hashes_come two_days (hashes_come two_days (start_search two_days 2) 0 false 0) 1 false 1

abbrev capped : Wide ℕ
capped =
    hashes_come two_days
      (page_comes two_days (page_comes two_days both_ask 1 false 1 (1 ∷ 2 ∷ []) (some late_page)) 0
        false 0 (1 ∷ 2 ∷ []) (some early_page))
      1 false 2

to_cap : Run two_days capped (start_search two_days 2) came
unfolding start_search start_workers take_piece hashes_come ask_page page_comes page_in finish_piece
    plan_pieces pieces_from take_rows add
to_cap = objects_come 0 false 0 refl (
    objects_come 1 false 1 refl (
      answers 1 false 1 (1 ∷ 2 ∷ []) none (some late_page) refl (
        answers 0 false 0 (1 ∷ 2 ∷ []) none (some early_page) refl
          (objects_come 1 false 2 refl (stays refl)))))

abbrev two_rows : WideResult ℕ
two_rows = record {
  xlogs = 700 ∷ 1000 ∷ [];
  cut = some at_cap;
  stopped_at = some 1400;
  requests = 2;
}

to_rows : finish_search two_days 600 capped ≡ some two_rows
unfolding start_search start_workers take_piece hashes_come ask_page page_comes page_in finish_piece
    plan_pieces pieces_from take_rows add finish_search edge_from sort_up insert_up
to_rows = refl

both_back : all_returned capped.workers ≡ true
unfolding start_search start_workers take_piece hashes_come ask_page page_comes page_in finish_piece
    plan_pieces pieces_from take_rows add
both_back = refl

second_piece : get_elem? two_days.pieces 1 ≡ some (record { date = 1 ∷ []; s = 1000; e = 1400 })
unfolding plan_pieces pieces_from
second_piece = refl

search_all_complete_example : last_came came 1 ≡ true
search_all_complete_example =
    search_all_complete next_day day_name two_days 600 1500 400 2 capped came two_rows 1
      (record { date = 1 ∷ []; s = 1000; e = 1400 }) next_day-later refl to_cap both_back to_rows
      second_piece refl

search_all_rows_example :
    (two_rows.xlogs
      ≡ map two_days.convert
          (sort_up (λ x. x.end_time) (rows_up_to two_rows.stopped_at (first_rows came))))
    × (txids (first_rows came) ≡ add_all [] (txids (all_rows came)))
    × (two_rows.requests ≡ pages_count came)
search_all_rows_example = search_all_rows two_days 600 2 capped came two_rows to_cap to_rows
