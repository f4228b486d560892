-- ===== src/Search/Books.antt =====
-- The books of a search agree after every step: each piece that was taken is with one worker or is
-- finished, as long as nothing stopped the search.
use nscouter.Search.Moves.{
  Moves, Moves-push_rows, take_piece_full, Moves-trans, ask_page_full, Moves-finish_piece,
  Moves-take_piece, Moves-ask_page,
}
use nscouter.Search.Held.{
  held, holds, has_returned, done_at, below, any_returned, held-set, held-append, any_returned-set,
  any_returned-append,
}
use nscouter.Search.Workers.{
  WideQuery, page_in, Wide, WidePage, WideWorker, stop_at_cap, push_rows, take_piece, returned,
  put_wide, finish_piece, ask_page, reject,
}
use nscouter.Base.{
  leb, Bool-cases, length, get_elem?, length-append, length-set, ℕ, refl, sym, inl, inr, Bool, true,
  false, none, some, List, [], arith, ◌+◌, ◌≤◌, ◌<◌, ◌≡◌, ◌∙◌, ◌≢◌, ◌⊎◌, ◌||◌, ◌∷◌, ◌++◌, ◌==◌,
  if◌then◌else◌, nat_eq, list_eq,
}

module _ {T : Type 0} (q : WideQuery T) where
  pub page_in_cases :
      (s : Wide T) (is_cancelled : Bool) (i : ℕ) (hashes : List ℕ) (page : WidePage)
      → let s1 = push_rows q s page in
        let r = page_in q s is_cancelled i hashes page in
        (r ≡ take_piece q (finish_piece q s1 i))
        ⊎ ((r ≡ (stop_at_cap q s1, returned)) × (leb q.most (length s1.out) ≡ true))
        ⊎ (r ≡ ask_page q s1 is_cancelled i hashes (some page.cursor))
  unfolding page_in
  page_in_cases s is_cancelled i hashes page =
      go page.done (leb q.most (length (push_rows q s page).out)) refl
    where
      go :
          (a b : Bool)
          → leb q.most (length (push_rows q s page).out) ≡ b
          → let s1 = push_rows q s page in
            let r =
              if a
              then take_piece q (finish_piece q s1 i)
              else if b
              then (stop_at_cap q s1, returned)
              else ask_page q s1 is_cancelled i hashes (some page.cursor) in
            (r ≡ take_piece q (finish_piece q s1 i))
            ⊎ ((r ≡ (stop_at_cap q s1, returned)) × (leb q.most (length s1.out) ≡ true))
            ⊎ (r ≡ ask_page q s1 is_cancelled i hashes (some page.cursor))
      go true b e = inl refl
      go false true e = inr (inl (refl, e))
      go false false e = inr (inr refl)

  Moves-stop_at_cap :
      (s : Wide T) (w : WideWorker)
      → leb q.most (length s.out) ≡ true
      → Moves q s w (stop_at_cap q s) returned
  Moves-stop_at_cap s w h = record {
    same_workers = refl;
    same_rejected = refl;
    fin_len = refl;
    later = omega arith;
    in_range = λ g. g;
    stops = λ g. ground (arith, g);
    bounded = λ k. omega arith;
    exact = λ g k. absurd (ground (arith, h, g));
  }

  stop_at_cap_some : (s : Wide T) → leb q.most (length s.out) ≡ true → (stop_at_cap q s).stop ≢ none
  stop_at_cap_some s h g = ground (arith, h, g)

  pub Moves-page_in :
      (s : Wide T) (w : WideWorker) (is_cancelled : Bool) (i : ℕ) (hashes : List ℕ)
      (page : WidePage)
      → ((k : ℕ) → holds w k ≡ (if i == k then 1 else 0))
      → i < length s.finished
      → done_at s.finished i ≡ 0
      → Moves q s w
          (page_in q s is_cancelled i hashes page).0
          (page_in q s is_cancelled i hashes page).1
  Moves-page_in s w is_cancelled i hashes page f lt z =
      let s1 = push_rows q s page in
      let pushed = Moves-push_rows q s w page in
      elim (page_in_cases s is_cancelled i hashes page) [
        | inl e ↦
            let s2 = finish_piece q s1 i in
            rw e (
              Moves-trans q s s1 (take_piece q s2).0 w w (take_piece q s2).1 pushed (
                Moves-trans q s1 s2 (take_piece q s2).0 w returned (take_piece q s2).1
                  (Moves-finish_piece q s1 w i f lt z) (Moves-take_piece q s2)))
        | inr (inl (e, h)) ↦
            rw e
              (Moves-trans q s s1 (stop_at_cap q s1) w w returned pushed (Moves-stop_at_cap s1 w h))
        | inr (inr e) ↦
            let r = ask_page q s1 is_cancelled i hashes (some page.cursor) in
            rw e (
              Moves-trans q s s1 r.0 w w r.1 pushed
                (Moves-ask_page q s1 w is_cancelled i hashes (some page.cursor) f))
      ]

  pub page_in_full :
      (s : Wide T) (is_cancelled : Bool) (i : ℕ) (hashes : List ℕ) (page : WidePage)
      → (page_in q s is_cancelled i hashes page).0.stop ≡ none
      → has_returned (page_in q s is_cancelled i hashes page).1 ≡ true
      → length q.pieces ≤ (page_in q s is_cancelled i hashes page).0.next
  page_in_full s is_cancelled i hashes page h r =
      let s1 = push_rows q s page in
      elim (page_in_cases s is_cancelled i hashes page) [
        | inl e ↦ rw e (take_piece_full q (finish_piece q s1 i) (rw e at h) (rw e at r))
        | inr (inl (e, m)) ↦ absurd (stop_at_cap_some s1 m (rw e at h))
        | inr (inr e) ↦
            rw e
              (ask_page_full q s1 is_cancelled i hashes (some page.cursor) (rw e at h) (rw e at r))
      ]

  pub record Books (n : ℕ) (s : Wide T) : Type 0 where
    pub staff : length s.workers ≡ n
    pub fin_len : length s.finished ≡ length q.pieces
    pub in_range : s.next ≤ length q.pieces
    pub bounded : (i : ℕ) → held s.workers i + done_at s.finished i ≤ below i s.next
    pub exact :
        s.stop ≡ none
        → s.rejected ≡ false
        → (i : ℕ) → held s.workers i + done_at s.finished i ≡ below i s.next
    pub full :
        s.stop ≡ none
        → s.rejected ≡ false
        → any_returned s.workers ≡ true
        → length q.pieces ≤ s.next

  pub Books-put_wide :
      {n : ℕ} (s t : Wide T) (j : ℕ) (w v : WideWorker)
      → get_elem? s.workers j ≡ some w
      → Books n s
      → Moves q s w t v
      → (t.stop ≡ none → has_returned v ≡ true → length q.pieces ≤ t.next)
      → Books n (put_wide q j (t, v))
  Books-put_wide s t j w v g b m f = record {
    staff = rw m.same_workers (length-set s.workers j v ∙ b.staff);
    fin_len = m.fin_len ∙ b.fin_len;
    in_range = m.in_range b.in_range;
    bounded = λ i.
        rw m.same_workers (omega (arith, held-set s.workers j i w v g, b.bounded i, m.bounded i));
    exact = λ h r i. rw m.same_workers (
        omega (
          arith,
          held-set s.workers j i w v g,
          b.exact (m.stops h) (sym m.same_rejected ∙ r) i,
          m.exact h i,
        ));
    full = λ h r a.
        let here : (any_returned s.workers || has_returned v) ≡ true =
          any_returned-set s.workers j v (rw m.same_workers at a) in
        elim (Bool-cases (has_returned v)) [
          | inl e ↦ f h e
          | inr e ↦
              let old = b.full (m.stops h) (sym m.same_rejected ∙ r) (ground (arith, here, e)) in
              omega (arith, old, m.later)
        ];
  }

  pub Books-reject :
      {n : ℕ} (s : Wide T) (j : ℕ) (w : WideWorker)
      → get_elem? s.workers j ≡ some w
      → Books n s
      → Books n (reject q s j)
  Books-reject s j w g b = record {
    staff = length-set s.workers j returned ∙ b.staff;
    fin_len = b.fin_len;
    in_range = b.in_range;
    bounded = λ i. omega (arith, held-set s.workers j i w returned g, b.bounded i);
    exact = λ h r. absurd (cc);
    full = λ h r. absurd (cc);
  }

  pub Books-append :
      {n : ℕ} (s t : Wide T) (v : WideWorker)
      → Books n s
      → Moves q s returned t v
      → (t.stop ≡ none → has_returned v ≡ true → length q.pieces ≤ t.next)
      → Books (n + 1) (record t { workers = t.workers ++ v ∷ [] })
  Books-append s t v b m f = record {
    staff = rw m.same_workers (omega (arith, length-append s.workers (v ∷ []), b.staff));
    fin_len = m.fin_len ∙ b.fin_len;
    in_range = m.in_range b.in_range;
    bounded =
        λ i. rw m.same_workers (omega (arith, held-append s.workers v i, b.bounded i, m.bounded i));
    exact = λ h r i. rw m.same_workers (
        omega (
          arith,
          held-append s.workers v i,
          b.exact (m.stops h) (sym m.same_rejected ∙ r) i,
          m.exact h i,
        ));
    full = λ h r a.
        let here : (any_returned s.workers || has_returned v) ≡ true =
          sym (any_returned-append s.workers v) ∙ (rw m.same_workers at a) in
        elim (Bool-cases (has_returned v)) [
          | inl e ↦ f h e
          | inr e ↦
              let old = b.full (m.stops h) (sym m.same_rejected ∙ r) (ground (arith, here, e)) in
              omega (arith, old, m.later)
        ];
  }
