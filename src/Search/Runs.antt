-- ===== src/Search/Runs.antt =====
-- The steps of a search, in whatever order the answers come, and what they keep.
use nscouter.PastLoad.{PastCursor}
use nscouter.Search.Moves.{Moves-take_piece, take_piece_full, Moves-ask_page, ask_page_full}
use nscouter.Search.Held.{done_at-replicate, held, held-ge}
use nscouter.Search.Books.{
  Books, Books-append, Books-reject, Books-put_wide, Moves-page_in, page_in_full,
}
use nscouter.Search.Workers.{
  WideQuery, start_workers, start_search, hashes_come, page_comes, Wide, take_piece, no_search,
  asks, WidePage, wide_hashes, ask_page, fetches, page_in,
}
use nscouter.Base.{
  Option-cases, length, get_elem?, length-replicate, ℕ, zero, suc, min, max, refl, subst, inl, inr,
  Bool, false, Option, none, some, List, [], arith, ◌+◌, ◌≤◌, ◌≡◌, ◌∷◌, ◌++◌, nat_eq, list_eq,
}

module _ {T : Type 0} (q : WideQuery T) where
  Books-start_workers :
      (n m : ℕ) (s : Wide T) (k : ℕ) → n + k ≡ m → Books q n s → Books q m (start_workers q s k)
  unfolding start_workers
  Books-start_workers n m s zero e b =
      let same : n ≡ m = omega (arith, e) in subst (λ j. Books q j s) same b
  Books-start_workers n m s (suc k) e b =
      let r = take_piece q s in
      Books-start_workers (n + 1) m (record (r.0) { workers = r.0.workers ++ r.1 ∷ [] }) k
        (omega (arith, e)) (Books-append q s r.0 r.1 b (Moves-take_piece q s) (take_piece_full q s))

  Books-no_search : Books q 0 (no_search q)
  Books-no_search = record {
    staff = refl;
    fin_len = length-replicate (length q.pieces) false;
    in_range = omega arith;
    bounded = λ i. omega (arith, done_at-replicate (length q.pieces) i);
    exact = λ h r i. ground (arith, done_at-replicate (length q.pieces) i);
    full = λ h r a. absurd (cc);
  }

  pub Books-start_search :
      (parallel : ℕ)
      → Books q (min (max 1 parallel) (max 1 (length q.pieces))) (start_search q parallel)
  unfolding start_search
  Books-start_search parallel =
      Books-start_workers 0 _ (no_search q) _ (omega arith) Books-no_search

  Books-hashes_come :
      {n : ℕ} (s : Wide T) (j : ℕ) (is_cancelled : Bool) (i : ℕ)
      → get_elem? s.workers j ≡ some (asks i)
      → Books q n s
      → Books q n (hashes_come q s j is_cancelled i)
  unfolding hashes_come
  Books-hashes_come s j is_cancelled i g b = elim (Option-cases (wide_hashes q i)) [
    | inl e ↦ rw (hashes_come, e) (Books-reject q s j (asks i) g b)
    | inr (hs, e) ↦
        let r = ask_page q s is_cancelled i hs none in
        rw (hashes_come, e)
          (Books-put_wide q s r.0 j (asks i) r.1 g b
            (Moves-ask_page q s (asks i) is_cancelled i hs none (λ k. refl))
            (ask_page_full q s is_cancelled i hs none))
  ]

  Books-page_comes :
      {n : ℕ} (s : Wide T) (j : ℕ) (is_cancelled : Bool) (i : ℕ) (hs : List ℕ)
      (c : Option PastCursor) (a : Option WidePage)
      → get_elem? s.workers j ≡ some (fetches i hs c)
      → Books q n s
      → Books q n (page_comes q s j is_cancelled i hs a)
  unfolding page_comes
  Books-page_comes s j is_cancelled i hs c none g b = Books-reject q s j (fetches i hs c) g b
  Books-page_comes s j is_cancelled i hs c (some page) g b =
      let r = page_in q s is_cancelled i hs page in
      let one : 1 ≤ held s.workers i = ground (arith, held-ge s.workers j i (fetches i hs c) g) in
      let bound = b.bounded i in
      Books-put_wide q s r.0 j (fetches i hs c) r.1 g b
        (Moves-page_in q s (fetches i hs c) is_cancelled i hs page (λ k. refl)
          (ground (arith, one, b.bounded i, b.in_range, b.fin_len))
          (ground (arith, one, b.bounded i)))
        (page_in_full q s is_cancelled i hs page)

  -- The search comes from `s` to `t` by the answers of `rs`, each to some request that is out, with
  -- the piece that was asked for.
  pub data Run (t : Wide T) : Wide T → List (ℕ × Option WidePage) → Type 0 where
    stays : {s : Wide T} → s ≡ t → Run t s []
    objects_come :
        {s : Wide T} {rs : List (ℕ × Option WidePage)} (j : ℕ) (is_cancelled : Bool) (i : ℕ)
        → get_elem? s.workers j ≡ some (asks i)
        → Run t (hashes_come q s j is_cancelled i) rs
        → Run t s rs
    answers :
        {s : Wide T} {rs : List (ℕ × Option WidePage)} (j : ℕ) (is_cancelled : Bool) (i : ℕ)
        (hashes : List ℕ) (cursor : Option PastCursor) (a : Option WidePage)
        → get_elem? s.workers j ≡ some (fetches i hashes cursor)
        → Run t (page_comes q s j is_cancelled i hashes a) rs
        → Run t s ((i, a) ∷ rs)

  pub Run-Books :
      {n : ℕ} {t s : Wide T} {rs : List (ℕ × Option WidePage)}
      → Run t s rs
      → Books q n s
      → Books q n t
  Run-Books {n} (stays e) b = subst (λ u. Books q n u) e b
  Run-Books (objects_come {s = s} j c i g r) b = Run-Books r (Books-hashes_come s j c i g b)
  Run-Books (answers {s = s} j c i hs cur a g r) b =
      Run-Books r (Books-page_comes s j c i hs cur a g b)
