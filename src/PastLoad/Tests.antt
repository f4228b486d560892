-- ===== src/PastLoad/Tests.antt =====
-- Two slices of two minutes: the first ends after one page, the second after two, and the edge
-- between them is answered by both.
use nscouter.PastLoad.Ends.{Run-shown, Run-counted, any_error, finish-error, first_rows}
use nscouter.PastLoad.Live.{Run-ends, Served}
use nscouter.Columns.Samples.{pack_of}
use nscouter.Base.Sets.{add, Distinct}
use nscouter.PastLoad.Slices.{Tiles, plan_slices-Tiles}
use nscouter.PastLoad.Pages.{Run, requests_out, txids, rows_of, answers, stop}
use nscouter.Base.{
  ltb, length, ℕ, refl, Bool, true, false, Option, none, some, List, [], arith, ◌+◌, ◌≤◌, ◌≡◌, ◌&&◌,
  ◌||◌, ◌∷◌, if◌then◌else◌, nat_eq, list_eq,
}
use nscouter.PastLoad.{
  Page, XlogPack, plan_slices, Load, start, PastCursor, slices_from, answer, start_from, turn,
  arrive, take_rows, finish, max_pages,
}

abbrev slices : List (ℕ × ℕ)
slices = plan_slices 8 1_000_000 1_120_000

cut_in_two : slices ≡ (1_000_000, 1_060_000) ∷ (1_060_000, 1_120_000) ∷ []
unfolding plan_slices slices_from
cut_in_two = refl

abbrev page_of : Bool → ℕ → List XlogPack → Page
page_of more time xlogs = record {
  xlogs = xlogs;
  cursor = record { has_more = more; last_txid = 0; last_xlog_time = time };
}

abbrev first_page : Page
first_page = page_of false 1_060_000 (pack_of 1 1_010_000 ∷ pack_of 2 1_060_000 ∷ [])

abbrev second_page : Page
second_page = page_of true 1_070_000 (pack_of 2 1_060_000 ∷ pack_of 3 1_070_000 ∷ [])

abbrev third_page : Page
third_page = page_of false 1_080_000 (pack_of 3 1_070_000 ∷ pack_of 4 1_080_000 ∷ [])

abbrev pages : List (Option Page)
pages = some second_page ∷ some first_page ∷ some third_page ∷ []

-- The second slice is answered first.
abbrev end_load : Load
end_load =
    answer (answer (answer (start slices) 1 none (some second_page)) 0 none (some first_page)) 1
      (some second_page.cursor) (some third_page)

to_end : Run end_load (start slices) pages
unfolding start start_from turn answer arrive take_rows add plan_slices slices_from
to_end = answers 1 none (some second_page) refl (
    answers 0 none (some first_page) refl
      (answers 1 (some second_page.cursor) (some third_page) refl (stop refl)))

four_rows : finish end_load ≡ some (3, 4, false)
unfolding start start_from turn answer arrive take_rows add plan_slices slices_from finish
four_rows = refl

not_aborted : end_load.aborted ≡ false
unfolding start start_from turn answer arrive take_rows add plan_slices slices_from
not_aborted = refl

Run-counted_example :
    (length pages + requests_out end_load.workers ≡ end_load.pages)
    × (end_load.pages ≤ max_pages)
    × Distinct (txids end_load.shown)
    × (end_load.loaded ≡ length end_load.shown)
Run-counted_example = Run-counted slices end_load pages to_end

Run-shown_example : end_load.shown ≡ first_rows [] (rows_of pages)
Run-shown_example = Run-shown slices end_load pages to_end not_aborted

-- A collector that always has more, at ever later times.
abbrev endless : ℕ → Option PastCursor → Option Page
endless i none = some second_page
endless i (some c) = some (page_of true (c.last_xlog_time + 1) [])

Run-ends_example :
    (t : Load) × (k : ℕ) × Served endless t end_load k
    × (requests_out t.workers ≡ 0)
    × (length pages + k ≡ t.pages)
    × (t.pages ≤ max_pages)
Run-ends_example = Run-ends endless slices end_load pages to_end

plan_slices-Tiles_example :
    Tiles 1_000_000 1_120_000 slices × (length slices ≤ 8) × (1 ≤ length slices)
plan_slices-Tiles_example = plan_slices-Tiles 8 1_000_000 1_120_000 (omega arith)

finish-error_example :
    (finish end_load ≡ (
      if end_load.aborted || any_error pages
      then none
      else some (end_load.pages, end_load.loaded, end_load.capped)))
    × ((end_load.capped && ltb end_load.pages max_pages) ≡ false)
finish-error_example = finish-error slices end_load pages to_end
