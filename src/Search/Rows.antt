-- ===== src/Search/Rows.antt =====
-- The rows that a search brings.
use nscouter.Base.Sorts.{insert_up, sort_up}
use nscouter.Base.Text.{Text}
use nscouter.Search.Runs.{Run, stays, objects_come, answers}
use nscouter.PastLoad.Pages.{txids, take_rows-seen, take_rows-eq-add_all}
use nscouter.Search.Complete.{reaches, finish_search-some}
use nscouter.Base.Sets.{add_all, has, add}
use nscouter.Columns.{XlogPack}
use nscouter.PastLoad.{PastCursor, take_rows}
use nscouter.Search.Books.{page_in_cases}
use nscouter.Search.Moves.{take_piece_cases}
use nscouter.Search.Workers.{
  WidePage, WideQuery, Wide, ask_page, finish_piece, hashes_come, start_workers, page_comes,
  take_piece, push_rows, wide_hashes, page_in, Cut, ask_next, or_stop, cancelled, kept,
  start_search, WideResult, finish_search, stopped_at_of, no_search,
}
use nscouter.Base.{
  leb, Bool-cases, Option-cases, ℕ, zero, suc, refl, sym, ap, inl, inr, Bool, Option, none, some,
  List, [], map, append-nil, append_assoc, arith, ◌+◌, ◌≡◌, ◌∙◌, ◌∷◌, ◌++◌, if◌then◌else◌, nat_eq,
  list_eq,
}

abbrev pub all_rows : List (ℕ × Option WidePage) → List XlogPack
all_rows [] = []
all_rows ((i, none) ∷ rs) = all_rows rs
all_rows ((i, some page) ∷ rs) = page.xlogs ++ all_rows rs

abbrev pub pages_count : List (ℕ × Option WidePage) → ℕ
pages_count [] = 0
pages_count ((i, none) ∷ rs) = pages_count rs
pages_count ((i, some page) ∷ rs) = 1 + pages_count rs

-- The rows of `xs` up to the edge.
abbrev pub rows_up_to : Option ℕ → List XlogPack → List XlogPack
rows_up_to at [] = []
rows_up_to at (x ∷ xs) = if reaches at x.end_time then x ∷ rows_up_to at xs else rows_up_to at xs

-- The rows that came, of each transaction the first.
abbrev pub first_rows : List (ℕ × Option WidePage) → List XlogPack
first_rows rs = (take_rows [] (all_rows rs)).1

take_rows-append :
    (seen : List Text) (xs ys : List XlogPack)
    → let a = take_rows seen xs in
      let b = take_rows a.0 ys in
      ((take_rows seen (xs ++ ys)).0 ≡ b.0) × ((take_rows seen (xs ++ ys)).1 ≡ a.1 ++ b.1)
unfolding take_rows
take_rows-append seen [] ys = (refl, refl)
take_rows-append seen (x ∷ xs) ys = elim (Bool-cases (has seen x.txid)) [
  | inl e ↦ rw (take_rows, e) (take_rows-append seen xs ys)
  | inr e ↦
      let (a, b) = take_rows-append (add seen x.txid) xs ys in
      rw (take_rows, e) (a, ap (λ l. x ∷ l) b)
]

module _ {T : Type 0} (q : WideQuery T) where
  abbrev entry : XlogPack → ℕ × T
  entry x = (x.end_time, q.convert x)

  -- Two states of a search that have collected the same.
  Same : Wide T → Wide T → Type 0
  Same s t = (t.seen ≡ s.seen) × (t.out ≡ s.out) × (t.requests ≡ s.requests)

  Same-take_piece : (s : Wide T) → Same s (take_piece q s).0
  unfolding Same
  Same-take_piece s = elim (take_piece_cases q s) [
    | inl (e, _) ↦ rw e (refl, refl, refl)
    | inr (pc, _, e) ↦ rw e (refl, refl, refl)
  ]

  Same-ask_page :
      (s : Wide T) (is_cancelled : Bool) (i : ℕ) (hashes : List ℕ) (cursor : Option PastCursor)
      → Same s (ask_page q s is_cancelled i hashes cursor).0
  unfolding Same ask_page
  Same-ask_page s is_cancelled i hashes cursor =
      go (if is_cancelled then or_stop s.stop cancelled else s.stop)
    where
      go : (o : Option Cut) → Same s (ask_next q o s i hashes cursor).0
      go none = (refl, refl, refl)
      go (some c) = (refl, refl, refl)

  Same-page_in :
      (s : Wide T) (is_cancelled : Bool) (i : ℕ) (hashes : List ℕ) (page : WidePage)
      → Same (push_rows q s page) (page_in q s is_cancelled i hashes page).0
  unfolding Same finish_piece
  Same-page_in s is_cancelled i hashes page = elim (page_in_cases q s is_cancelled i hashes page) [
    | inl e ↦ rw e (Same-take_piece (finish_piece q (push_rows q s page) i))
    | inr (inl (e, _)) ↦ rw e (refl, refl, refl)
    | inr (inr e) ↦
        rw e (Same-ask_page (push_rows q s page) is_cancelled i hashes (some page.cursor))
  ]

  Same-hashes_come :
      (s : Wide T) (j : ℕ) (is_cancelled : Bool) (i : ℕ) → Same s (hashes_come q s j is_cancelled i)
  unfolding Same hashes_come
  Same-hashes_come s j is_cancelled i = elim (Option-cases (wide_hashes q i)) [
    | inl e ↦ rw (hashes_come, e) (refl, refl, refl)
    | inr (hs, e) ↦ rw (hashes_come, e) (Same-ask_page s is_cancelled i hs none)
  ]

  Same-start_workers : (s : Wide T) (k : ℕ) → Same s (start_workers q s k)
  unfolding Same start_workers
  Same-start_workers s zero = (refl, refl, refl)
  Same-start_workers s (suc k) =
      let r = take_piece q s in
      let (a, b, c) = Same-take_piece s in
      let (d, e, f) = Same-start_workers (record (r.0) { workers = r.0.workers ++ r.1 ∷ [] }) k in
      (d ∙ a, e ∙ b, f ∙ c)

  map-append : (xs ys : List XlogPack) → map entry (xs ++ ys) ≡ map entry xs ++ map entry ys
  map-append [] ys = refl
  map-append (x ∷ xs) ys = ap (λ l. entry x ∷ l) (map-append xs ys)

  -- What comes with the answers `rs` is what `take_rows` keeps of all their rows.
  record Grows (s t : Wide T) (rs : List (ℕ × Option WidePage)) : Type 0 where
    pub seen_eq : t.seen ≡ (take_rows s.seen (all_rows rs)).0
    pub out_eq : t.out ≡ s.out ++ map entry (take_rows s.seen (all_rows rs)).1
    pub requests_eq : t.requests ≡ s.requests + pages_count rs

  Grows-Same :
      (s u t : Wide T) (rs : List (ℕ × Option WidePage)) → Same s u → Grows u t rs → Grows s t rs
  unfolding Same
  Grows-Same s u t rs (a, b, c) g = record {
    seen_eq = g.seen_eq ∙ ap (λ l. (take_rows l (all_rows rs)).0) a;
    out_eq =
        g.out_eq
        ∙ ap (λ l. l ++ map entry (take_rows u.seen (all_rows rs)).1) b
        ∙ ap (λ l. s.out ++ map entry (take_rows l (all_rows rs)).1) a;
    requests_eq = omega (arith, g.requests_eq, c);
  }

  Grows-push_rows :
      (s u t : Wide T) (i : ℕ) (page : WidePage) (rs : List (ℕ × Option WidePage))
      → Same (push_rows q s page) u
      → Grows u t rs
      → Grows s t ((i, some page) ∷ rs)
  unfolding Same
  Grows-push_rows s u t i page rs same g0 =
      let g = Grows-Same (push_rows q s page) u t rs same g0 in
      let r = take_rows s.seen page.xlogs in
      let (first, second) = take_rows-append s.seen page.xlogs (all_rows rs) in
      let fresh = (take_rows r.0 (all_rows rs)).1 in
      record {
        seen_eq = g.seen_eq ∙ sym first;
        out_eq =
            g.out_eq
            ∙ append_assoc s.out (map entry r.1) (map entry fresh)
            ∙ ap (λ l. s.out ++ l)
                (sym (map-append r.1 fresh) ∙ ap (λ l. map entry l) (sym second));
        requests_eq = omega (arith, g.requests_eq);
      }

  Run-Grows : {t s : Wide T} {rs : List (ℕ × Option WidePage)} → Run q t s rs → Grows s t rs
  unfolding Same page_comes take_rows
  Run-Grows {t} (stays {s = s} e) = record {
    seen_eq = ap (λ u. u.seen) (sym e);
    out_eq = ap (λ u. u.out) (sym e) ∙ sym (append-nil s.out);
    requests_eq = omega (arith, ap (λ u. u.requests) e);
  }
  Run-Grows {t} (objects_come {s = s} {rs = rs} j c i g r) =
      Grows-Same s _ t rs (Same-hashes_come s j c i) (Run-Grows r)
  Run-Grows {t} (answers {s = s} {rs = rs} j c i hs cur none g r) =
      let g2 = Run-Grows r in
      record { seen_eq = g2.seen_eq; out_eq = g2.out_eq; requests_eq = g2.requests_eq }
  Run-Grows {t} (answers {s = s} {rs = rs} j c i hs cur (some page) g r) =
      Grows-push_rows s _ t i page rs (Same-page_in s c i hs page) (Run-Grows r)

  kept-map :
      (at : Option ℕ) (xs : List XlogPack) → kept q at (map entry xs) ≡ map entry (rows_up_to at xs)
  kept-map none [] = refl
  kept-map none (x ∷ xs) = ap (λ l. entry x ∷ l) (kept-map none xs)
  kept-map (some at) [] = refl
  kept-map (some at) (x ∷ xs) = elim (Bool-cases (leb x.end_time at)) [
    | inl e ↦ rw e (ap (λ l. entry x ∷ l) (kept-map (some at) xs))
    | inr e ↦ rw e (kept-map (some at) xs)
  ]

  insert_up-map :
      (x : XlogPack) (xs : List XlogPack)
      → insert_up (λ o. o.0) (entry x) (map entry xs) ≡ map entry (insert_up (λ y. y.end_time) x xs)
  unfolding insert_up
  insert_up-map x [] = refl
  insert_up-map x (y ∷ ys) = elim (Bool-cases (leb x.end_time y.end_time)) [
    | inl e ↦ rw e refl
    | inr e ↦ rw e (ap (λ l. entry y ∷ l) (insert_up-map x ys))
  ]

  sort_up-map :
      (xs : List XlogPack)
      → sort_up (λ o. o.0) (map entry xs) ≡ map entry (sort_up (λ x. x.end_time) xs)
  unfolding sort_up
  sort_up-map [] = refl
  sort_up-map (x ∷ xs) =
      ap (λ l. insert_up (λ o. o.0) (entry x) l) (sort_up-map xs)
      ∙ insert_up-map x (sort_up (λ y. y.end_time) xs)

  map-map : (xs : List XlogPack) → map (λ o. o.1) (map entry xs) ≡ map q.convert xs
  map-map [] = refl
  map-map (x ∷ xs) = ap (λ l. q.convert x ∷ l) (map-map xs)

  -- In whatever order the answers come, and whenever the user cancels: the result has the rows of
  -- all the answers that end at or before the reported edge (all rows where there is none), of those
  -- of one transaction the one that came first, converted, in the order of their end; and the number
  -- of requests is that of the pages that came.
  pub search_all_rows :
      (stime parallel : ℕ) (t : Wide T) (rs : List (ℕ × Option WidePage)) (r : WideResult T)
      → Run q t (start_search q parallel) rs
      → finish_search q stime t ≡ some r
      → (r.xlogs
          ≡ map q.convert (sort_up (λ x. x.end_time) (rows_up_to r.stopped_at (first_rows rs))))
        × (txids (first_rows rs) ≡ add_all [] (txids (all_rows rs)))
        × (r.requests ≡ pages_count rs)
  unfolding Same start_search
  search_all_rows stime parallel t rs r run h =
      let (_, e) = finish_search-some q stime t r h in
      let edge = stopped_at_of q stime t in
      let rows = first_rows rs in
      let g =
        Grows-Same (no_search q) _ t rs (Same-start_workers (no_search q) _) (Run-Grows run) in
      let at : r.stopped_at ≡ edge = ap (λ x. x.stopped_at) e in
      (
        ap (λ x. x.xlogs) e
            ∙ ap (λ l. map (λ o. o.1) (sort_up (λ o. o.0) (kept q edge l))) g.out_eq
            ∙ ap (λ l. map (λ o. o.1) (sort_up (λ o. o.0) l)) (kept-map edge rows)
            ∙ ap (λ l. map (λ o. o.1) l) (sort_up-map (rows_up_to edge rows))
            ∙ map-map (sort_up (λ x. x.end_time) (rows_up_to edge rows))
            ∙ ap (λ a. map q.convert (sort_up (λ x. x.end_time) (rows_up_to a rows))) (sym at),
        take_rows-seen [] (all_rows rs) ∙ take_rows-eq-add_all [] (all_rows rs),
        omega (arith, ap (λ x. x.requests) e, g.requests_eq),
      )
