-- ===== src/DetailTabs/Tests.antt =====
-- Detail tabs of a profile that is a number.
use nscouter.Base.Sets.{add}
use nscouter.Base.Text.{trim}
use nscouter.DetailTabs.Saved.{Fresh, RawDetail, normalize, normalize_from, normalize-Fresh}
use nscouter.Base.Maps.{get}
use nscouter.DetailTabs.WellFormed.{WellFormed}
use nscouter.DetailTabs.Victim.{Listed, SeenSince}
use nscouter.DetailTabs.Events.{
  Event, run, step, run-close_all, opens, activates, closes_active, cycles,
}
use nscouter.Base.{
  length, ℕ, max, refl, false, Option, none, some, List, [], ◌≤◌, ◌≡◌, ◌∷◌, ◌++◌, nat_eq, list_eq,
}
use nscouter.DetailTabs.{
  TabsState, SXlog, title_of, close, DetailTab, text, has, open_xlog, tab_keys, without_key, loaded,
  seed, failed, close_all, activate, make_room, victim_from, is_key, Text, forward,
}
use nscouter.DetailTabs.Late.{open_xlog_full}
use nscouter.DetailTabs.Gone.{late_answer, close-absent}

abbrev xlog_named : ℕ → SXlog
xlog_named n = record {
  txid = n ∷ [];
  gxid = [];
  caller = [];
  end_time = 1_000;
  elapsed = 120;
  obj_hash = 1;
  service = 255;
  error = 0;
  x_type = 0;
  cpu = 1;
  sql_count = 2;
  sql_time = 30;
  api_call_count = 0;
  api_call_time = 0;
  ip_addr = [];
  alloc_k_bytes = 64;
  thread_name_hash = 0;
}

-- Transaction 1 is looked at again after eight were opened, and is not closed for the ninth.
abbrev eight : List (Event ℕ)
eight =
    opens (xlog_named 1) 10
    ∷ opens (xlog_named 2) 20
    ∷ opens (xlog_named 3) 30
    ∷ opens (xlog_named 4) 40
    ∷ opens (xlog_named 5) 50
    ∷ opens (xlog_named 6) 60
    ∷ opens (xlog_named 7) 70
    ∷ opens (xlog_named 8) 80
    ∷ activates (1 ∷ []) 90
    ∷ []

abbrev full : TabsState ℕ
full = run close_all eight

full-WellFormed : WellFormed full
full-WellFormed = run-close_all eight

full_lem : length full.tabs ≡ 8
unfolding run step close_all open_xlog activate make_room victim_from
full_lem = refl

fresh_lem : has (tab_keys full.tabs) (9 ∷ []) ≡ false
unfolding run step close_all open_xlog activate make_room victim_from
fresh_lem = refl

-- The one that goes is transaction 2.
ninth :
    tab_keys (open_xlog full (xlog_named 9) 100).tabs
    ≡ (1 ∷ []) ∷ (3 ∷ []) ∷ (4 ∷ []) ∷ (5 ∷ []) ∷ (6 ∷ []) ∷ (7 ∷ []) ∷ (8 ∷ []) ∷ (9 ∷ []) ∷ []
unfolding run step close_all open_xlog activate make_room victim_from
ninth = refl

title : title_of (xlog_named 1) [] ≡ text "0xff"
unfolding title_of get
title = refl

run-close_all_example : WellFormed (run close_all eight)
run-close_all_example = run-close_all eight

-- Transaction 3 is closed, another one takes its place, and the active tab is closed.
abbrev meanwhile : List (Event ℕ)
meanwhile = opens (xlog_named 9) 100 ∷ closes_active ∷ cycles forward 120 ∷ []

late_answer_example :
    let c = run (close full (3 ∷ [])) meanwhile in
    (has (tab_keys c.tabs) (3 ∷ []) ≡ false)
    × (loaded c (xlog_named 3) 77 [] ≡ c)
    × (failed c (xlog_named 3) (text "timeout") ≡ c)
late_answer_example =
    late_answer (close full (3 ∷ [])) meanwhile (xlog_named 3) 77 [] (text "timeout")
      (close-absent full (3 ∷ [])) (refl, (refl, (refl, tt)))

open_xlog_full_example :
    (v : DetailTab ℕ) × ((open_xlog full (xlog_named 9) 100).tabs
      ≡ without_key full.tabs v.key ++ seed (xlog_named 9) 100 ∷ [])
    × Listed v full.tabs
    × (is_key full.active_key v.key ≡ false)
    × SeenSince full.active_key v.touched_at full.tabs
open_xlog_full_example = open_xlog_full full (xlog_named 9) 100 full-WellFormed full_lem fresh_lem

abbrev raw : Text → Text → Option RawDetail
raw txid date = some (record { raw_txid = some txid; raw_date = some date })

abbrev details_file : Option (List (Option RawDetail))
details_file = some (
    raw (text " a1 ") (text "20251126")
    ∷ none
    ∷ raw (text "a1") (text "20251126")
    ∷ raw (text "b2") (text "today")
    ∷ raw (text "c3") (text "20251125")
    ∷ [])

two_details : length (normalize details_file 8) ≡ 2
unfolding normalize normalize_from trim add
two_details = refl

normalize-Fresh_example :
    Fresh [] (normalize details_file 8) × (length (normalize details_file 8) ≤ max 1 8)
normalize-Fresh_example = normalize-Fresh details_file 8
