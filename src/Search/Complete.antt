-- ===== src/Search/Complete.antt =====
-- What a search that is over has gone through.
use nscouter.PastLoad.{PastCursor}
use nscouter.Search.Moves.{take_piece_cases, get_elem?_lt}
use nscouter.Search.Runs.{Run, stays, objects_come, answers, Run-Books, Books-start_search}
use nscouter.Search.Pieces.{Tiles, plan_pieces-Tiles}
use nscouter.Search.{Piece, plan_pieces}
use nscouter.Base.Text.{Text}
use nscouter.Search.Held.{done_at, all_returned, any_returned, held_none, done_at-replicate}
use nscouter.Search.Workers.{
  WidePage, WideWorker, edge_from, WideQuery, Wide, ask_page, page_comes, hashes_come,
  start_workers, take_piece, page_in, wide_hashes, finish_piece, push_rows, put_wide, stop_at_cap,
  returned, Cut, ask_next, or_stop, cancelled, finish_search, stopped_at_of, start_search,
  WideResult, result_of, no_search,
}
use nscouter.Base.{
  leb, Bool-cases, Option-cases, length, get_elem?, ℕ, zero, suc, min, max, refl, sym, ap, inl, inr,
  Bool, true, false, Option, none, some, List, [], arith, ◌+◌, ◌≤◌, ◌<◌, ◌≡◌, ◌∙◌, ◌&&◌, ◌||◌, ◌∷◌,
  ◌++◌, ◌==◌, if◌then◌else◌, nat_eq, list_eq, set,
}

-- The answer is the last page of its piece.
abbrev pub is_last : Option WidePage → Bool
is_last none = false
is_last (some page) = page.done

-- The last page of piece `i` has come.
abbrev pub last_came : List (ℕ × Option WidePage) → ℕ → Bool
last_came [] i = false
last_came (a ∷ rs) i = ((a.0 == i) && is_last a.1) || last_came rs i

-- The search says that it went through all up to time `e`; without an edge, through everything.
abbrev pub reaches : Option ℕ → ℕ → Bool
reaches none e = true
reaches (some at) e = leb e at

done_at-out : (fs : List Bool) (i : ℕ) → length fs ≤ i → done_at fs i ≡ 0
done_at-out [] i h = refl
done_at-out (b ∷ fs) zero h = absurd (omega arith)
done_at-out (b ∷ fs) (suc i) h = done_at-out fs i (omega arith)

done_at-set_le :
    (fs : List Bool) (k i : ℕ)
    → done_at (set fs k true) i ≤ done_at fs i + (if k == i then 1 else 0)
done_at-set_le [] k i = omega arith
done_at-set_le (b ∷ fs) zero zero = ground arith
done_at-set_le (b ∷ fs) zero (suc i) = ground arith
done_at-set_le (b ∷ fs) (suc k) zero = ground arith
done_at-set_le (b ∷ fs) (suc k) (suc i) = ground (arith, done_at-set_le fs k i)

module _ (midnight : ℕ → ℕ) (yyyymmdd : ℕ → Text) where
  piece_after :
      (s etime piece : ℕ) (ps : List Piece) (i : ℕ) (pc : Piece)
      → Tiles midnight yyyymmdd s etime piece ps
      → get_elem? ps i ≡ some pc
      → s < pc.e
  piece_after s etime piece [] i pc t h = absurd (cc)
  piece_after s etime piece (p ∷ ps) zero pc (_, lt, _, _, _, _, _) h =
      let same : p ≡ pc = cc in omega (arith, lt, ap (λ x. x.e) same)
  piece_after s etime piece (p ∷ ps) (suc i) pc (_, lt, _, _, _, _, t) h =
      omega (arith, lt, piece_after p.e etime piece ps i pc t h)

  edge_from-done :
      (s etime piece : ℕ) (ps : List Piece) (fs : List Bool) (i : ℕ) (pc : Piece)
      → Tiles midnight yyyymmdd s etime piece ps
      → get_elem? ps i ≡ some pc
      → pc.e ≤ edge_from s ps fs
      → done_at fs i ≡ 1
  unfolding edge_from
  edge_from-done s etime piece [] fs i pc t h l = absurd (cc)
  edge_from-done s etime piece (p ∷ ps) [] i pc t h l =
      absurd (omega (arith, l, piece_after s etime piece (p ∷ ps) i pc t h))
  edge_from-done s etime piece (p ∷ ps) (false ∷ fs) i pc t h l =
      absurd (omega (arith, l, piece_after s etime piece (p ∷ ps) i pc t h))
  edge_from-done s etime piece (p ∷ ps) (true ∷ fs) zero pc t h l = refl
  edge_from-done s etime piece (p ∷ ps) (true ∷ fs) (suc i) pc (_, _, _, _, _, _, t) h l =
      edge_from-done p.e etime piece ps fs i pc t h l

any_of_all :
    (ws : List WideWorker) → all_returned ws ≡ true → 1 ≤ length ws → any_returned ws ≡ true
any_of_all [] a h = absurd (omega arith)
any_of_all (w ∷ ws) a h = ground arith

last_or : Option WidePage → ℕ → ℕ → ℕ
last_or a k i = if (k == i) && is_last a then 1 else 0

module _ {T : Type 0} (q : WideQuery T) where
  take_piece-finished : (s : Wide T) → (take_piece q s).0.finished ≡ s.finished
  take_piece-finished s = elim (take_piece_cases q s) [
    | inl (e, _) ↦ rw e refl
    | inr (pc, _, e) ↦ rw e refl
  ]

  ask_page-finished :
      (s : Wide T) (is_cancelled : Bool) (i : ℕ) (hashes : List ℕ) (cursor : Option PastCursor)
      → (ask_page q s is_cancelled i hashes cursor).0.finished ≡ s.finished
  unfolding ask_page
  ask_page-finished s is_cancelled i hashes cursor =
      go (if is_cancelled then or_stop s.stop cancelled else s.stop)
    where
      go : (o : Option Cut) → (ask_next q o s i hashes cursor).0.finished ≡ s.finished
      go none = refl
      go (some c) = refl

  page_comes-done :
      (s : Wide T) (j : ℕ) (is_cancelled : Bool) (i k : ℕ) (hashes : List ℕ) (a : Option WidePage)
      → done_at (page_comes q s j is_cancelled i hashes a).finished k
        ≤ done_at s.finished k + last_or a i k
  unfolding page_comes page_in finish_piece last_or
  page_comes-done s j is_cancelled i k hashes none = ground arith
  page_comes-done s j is_cancelled i k hashes (some page) =
      go page.done (leb q.most (length s1.out))
    where
      s1 : Wide T
      s1 = push_rows q s page

      go :
          (d b : Bool)
          → done_at
              (put_wide q j (
                if d
                then take_piece q (finish_piece q s1 i)
                else if b
                then (stop_at_cap q s1, returned)
                else ask_page q s1 is_cancelled i hashes (some page.cursor))).finished
              k
            ≤ done_at s.finished k + (if (i == k) && d then 1 else 0)
      go true b =
          rw (take_piece-finished (finish_piece q s1 i))
            (ground (arith, done_at-set_le s.finished i k))
      go false true = ground arith
      go false false =
          rw (ask_page-finished s1 is_cancelled i hashes (some page.cursor)) (ground arith)

  hashes_come-finished :
      (s : Wide T) (j : ℕ) (is_cancelled : Bool) (i : ℕ)
      → (hashes_come q s j is_cancelled i).finished ≡ s.finished
  unfolding hashes_come
  hashes_come-finished s j is_cancelled i = elim (Option-cases (wide_hashes q i)) [
    | inl e ↦ rw (hashes_come, e) refl
    | inr (hs, e) ↦ rw (hashes_come, e) (ask_page-finished s is_cancelled i hs none)
  ]

  start_workers-finished : (s : Wide T) (k : ℕ) → (start_workers q s k).finished ≡ s.finished
  unfolding start_workers
  start_workers-finished s zero = refl
  start_workers-finished s (suc k) =
      let r = take_piece q s in
      start_workers-finished (record (r.0) { workers = r.0.workers ++ r.1 ∷ [] }) k
      ∙ take_piece-finished s

  Run-last_came :
      {t s : Wide T} {rs : List (ℕ × Option WidePage)} (i : ℕ)
      → Run q t s rs
      → done_at t.finished i ≡ 1
      → done_at s.finished i ≡ 0
      → last_came rs i ≡ true
  unfolding last_or
  Run-last_came i (stays e) h z = absurd (omega (arith, h, z, ap (λ x. done_at x.finished i) e))
  Run-last_came i (objects_come {s = s} j c k g r) h z =
      Run-last_came i r h (rw (hashes_come-finished s j c k) z)
  Run-last_came i (answers {s = s} j c k hs cur a g r) h z =
      let le = page_comes-done s j c k i hs a in
      elim (Bool-cases ((k == i) && is_last a)) [
        | inl e ↦ rw e refl
        | inr e ↦ rw e (Run-last_came i r h (ground (arith, le, z, e)))
      ]

  pub finish_search-some :
      (stime : ℕ) (t : Wide T) (r : WideResult T)
      → finish_search q stime t ≡ some r
      → (t.rejected ≡ false) × (r ≡ result_of q (stopped_at_of q stime t) t)
  unfolding finish_search
  finish_search-some stime t r = go t.rejected
    where
      go :
          (b : Bool)
          → (if b then none else some (result_of q (stopped_at_of q stime t) t)) ≡ some r
          → (b ≡ false) × (r ≡ result_of q (stopped_at_of q stime t) t)
      go true h = absurd (cc)
      go false h = (refl, cc)

  stopped_at_some :
      (stime : ℕ) (t : Wide T) (c : Cut)
      → t.stop ≡ some c
      → stopped_at_of q stime t ≡ some (edge_from stime q.pieces t.finished)
  stopped_at_some stime t c h = rw h refl

  start_search-done : (parallel i : ℕ) → done_at (start_search q parallel).finished i ≡ 0
  unfolding start_search
  start_search-done parallel i =
      rw (start_workers-finished (no_search q) (min (max 1 parallel) (max 1 (length q.pieces))))
        (done_at-replicate (length q.pieces) i)

  -- A search that nothing stopped has finished every piece.
  all_done :
      (parallel : ℕ) (t : Wide T) (rs : List (ℕ × Option WidePage)) (i : ℕ)
      → Run q t (start_search q parallel) rs
      → all_returned t.workers ≡ true
      → t.stop ≡ none
      → t.rejected ≡ false
      → i < length q.pieces
      → done_at t.finished i ≡ 1
  all_done parallel t rs i run a s0 r0 lt =
      let b = Run-Books q run (Books-start_search q parallel) in
      let any = any_of_all t.workers a (omega (arith, b.staff)) in
      let all = b.full s0 r0 any in
      let none_held = held_none t.workers i a in ground (arith, b.exact s0 r0 i, none_held, all, lt)

module _ {T : Type 0} (midnight : ℕ → ℕ) (yyyymmdd : ℕ → Text) where
  -- In whatever order the answers come, and whenever the user cancels: when every worker has returned
  -- and the search has a result, the last page has come of each piece that ends at or before the
  -- reported edge; where the result reports no edge, of every piece.
  pub search_all_complete :
      (q : WideQuery T) (stime etime piece parallel : ℕ) (t : Wide T)
      (rs : List (ℕ × Option WidePage)) (r : WideResult T) (i : ℕ) (pc : Piece)
      → ((x : ℕ) → x < midnight x)
      → q.pieces ≡ plan_pieces midnight yyyymmdd stime etime piece
      → Run q t (start_search q parallel) rs
      → all_returned t.workers ≡ true
      → finish_search q stime t ≡ some r
      → get_elem? q.pieces i ≡ some pc
      → reaches r.stopped_at pc.e ≡ true
      → last_came rs i ≡ true
  search_all_complete q stime etime piece parallel t rs r i pc m plan run a h g reach =
      let (r0, e) = finish_search-some q stime t r h in
      let tiles : Tiles midnight yyyymmdd stime etime piece q.pieces =
        rw plan (plan_pieces-Tiles midnight yyyymmdd stime etime piece m) in
      let edge : reaches (stopped_at_of q stime t) pc.e ≡ true =
        sym (ap (λ x. reaches x.stopped_at pc.e) e) ∙ reach in
      let done : done_at t.finished i ≡ 1 = elim (Option-cases t.stop) [
        | inl s0 ↦ all_done q parallel t rs i run a s0 r0 (get_elem?_lt q q.pieces i pc g)
        | inr (c, s1) ↦
            let at : reaches (some (edge_from stime q.pieces t.finished)) pc.e ≡ true =
              sym (ap (λ o. reaches o pc.e) (stopped_at_some q stime t c s1)) ∙ edge in
            edge_from-done midnight yyyymmdd stime etime piece q.pieces t.finished i pc tiles g
              (ground (arith, at))
      ] in
      Run-last_came q i run done (start_search-done q parallel i)
