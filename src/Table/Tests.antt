-- ===== src/Table/Tests.antt =====
-- Three transactions, two of them of one service.
use nscouter.Table.Slowest.{pick_table_rows-Slowest, left_by}
use nscouter.Base.Sorts.{Downward, total, insert_down, sort_down}
use nscouter.Table.Sorted.{InOrder, opposite, sort_xlogs-InOrder, may_precede}
use nscouter.Table.{
  SXlog, SortNames, Text, sort_xlogs, pick_table_rows, next_sort, sort_mark, sign_of, Sign, sort_by,
  first_dir, same_key, insert_by, default_sort, compare, url, time, desc, text, ip,
}
use nscouter.Base.{
  length, ℕ, min, refl, Option, none, some, List, [], arith, ◌+◌, ◌*◌, ◌%◌, ◌≡◌, ◌∷◌, ◌++◌, nat_eq,
  list_eq,
}

abbrev row : ℕ → ℕ → ℕ → SXlog
row id at ms = record {
  txid = id ∷ [];
  gxid = [];
  caller = [];
  end_time = at;
  elapsed = ms;
  obj_hash = 0;
  service = id % 2;
  error = 0;
  x_type = 0;
  cpu = 0;
  sql_count = 0;
  sql_time = 0;
  api_call_count = 0;
  api_call_time = 0;
  ip_addr = [];
  alloc_k_bytes = 0;
  thread_name_hash = 0;
}

abbrev three : List SXlog
three = row 1 100 7 ∷ row 2 200 9 ∷ row 3 300 8 ∷ []

abbrev shown_names : SortNames
shown_names = record { server_name = λ h. h ∷ []; url_name = λ s. s ∷ []; y_value = λ x. x.cpu }

abbrev first_units : Text → ℕ
first_units [] = 0
first_units (c ∷ s) = c + 1

-- By the first letter.
abbrev locale : Text → Text → Sign
locale s t = sign_of (first_units s) (first_units t)

by_url :
    sort_xlogs locale three (record { key = url; dir = desc }) shown_names
    ≡ row 3 300 8 ∷ row 1 100 7 ∷ row 2 200 9 ∷ []
unfolding sort_xlogs sort_by insert_by compare sign_of
by_url = refl

slowest_two : (pick_table_rows three none 2).rows ≡ row 2 200 9 ∷ row 3 300 8 ∷ []
unfolding pick_table_rows sort_down insert_down
slowest_two = refl

again : next_sort (next_sort default_sort url) url ≡ record { key = url; dir = desc }
unfolding next_sort first_dir same_key
again = refl

marked : (sort_mark default_sort time ≡ text "▼") × (sort_mark default_sort ip ≡ [])
unfolding sort_mark same_key
marked = (refl, refl)

locale-opposite : (s t : Text) → locale s t ≡ opposite (locale t s)
unfolding sign_of
locale-opposite s t = ground arith

sort_xlogs-InOrder_example :
    InOrder
      (may_precede locale desc url shown_names)
      (sort_xlogs locale three (record { key = url; dir = desc }) shown_names)
    × (total
          (λ x. x.elapsed)
          (sort_xlogs locale three (record { key = url; dir = desc }) shown_names)
        ≡ total (λ x. x.elapsed) three)
sort_xlogs-InOrder_example =
    sort_xlogs-InOrder locale three (record { key = url; dir = desc }) shown_names (λ x. x.elapsed)
      locale-opposite

abbrev two_hits : Option (List Text)
two_hits = some ((2 ∷ []) ∷ (3 ∷ []) ∷ [])

pick_table_rows-Slowest_example :
    (rest : List SXlog) × ((pick_table_rows three two_hits 1).matched
      ≡ total (λ x. left_by two_hits x * 1) three)
    × (length (pick_table_rows three two_hits 1).rows
        ≡ min 1 (pick_table_rows three two_hits 1).matched)
    × Downward (λ x. x.elapsed) ((pick_table_rows three two_hits 1).rows ++ rest)
    × ((f : SXlog → ℕ)
        → total f (pick_table_rows three two_hits 1).rows + total f rest
          ≡ total (λ x. left_by two_hits x * f x) three)
pick_table_rows-Slowest_example = pick_table_rows-Slowest three two_hits 1
