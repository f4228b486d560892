-- ===== src/Search/Moves.antt =====
-- What one run of a worker between two awaits changes in the books.
use nscouter.PastLoad.{PastCursor}
use nscouter.Base.Sets.{add}
use nscouter.Search.{Piece}
use nscouter.Search.Held.{holds, done_at, below, has_returned, done_at-set}
use nscouter.Search.Workers.{
  WideQuery, Wide, take_piece, WideWorker, returned, asks, take_next, ask_page, finish_piece,
  WidePage, push_rows, Cut, or_stop, cancelled, ask_next,
}
use nscouter.Base.{
  Option-cases, length, get_elem?, length-set, ℕ, zero, suc, refl, ap, inl, inr, Bool, true, false,
  Option, none, some, List, [], arith, ◌+◌, ◌≤◌, ◌<◌, ◌≡◌, ◌∙◌, ◌⊎◌, ◌∷◌, ◌==◌, if◌then◌else◌,
  nat_eq, list_eq,
}

module _ {T : Type 0} (q : WideQuery T) where
  -- A worker goes from `w` to `v` while the search goes from `s` to `t`.
  pub record Moves (s : Wide T) (w : WideWorker) (t : Wide T) (v : WideWorker) : Type 0 where
    pub same_workers : t.workers ≡ s.workers
    pub same_rejected : t.rejected ≡ s.rejected
    pub fin_len : length t.finished ≡ length s.finished
    pub later : s.next ≤ t.next
    pub in_range : s.next ≤ length q.pieces → t.next ≤ length q.pieces
    pub stops : t.stop ≡ none → s.stop ≡ none
    pub bounded :
        (i : ℕ)
        → holds v i + done_at t.finished i + below i s.next
          ≤ holds w i + done_at s.finished i + below i t.next
    pub exact :
        t.stop ≡ none
        → (i : ℕ)
        → holds v i + done_at t.finished i + below i s.next
          ≡ holds w i + done_at s.finished i + below i t.next

  pub Moves-trans :
      (s t u : Wide T) (w v x : WideWorker) → Moves s w t v → Moves t v u x → Moves s w u x
  Moves-trans s t u w v x a b = record {
    same_workers = b.same_workers ∙ a.same_workers;
    same_rejected = b.same_rejected ∙ a.same_rejected;
    fin_len = b.fin_len ∙ a.fin_len;
    later = omega (arith, a.later, b.later);
    in_range = λ h. b.in_range (a.in_range h);
    stops = λ h. a.stops (b.stops h);
    bounded = λ i. omega (arith, a.bounded i, b.bounded i);
    exact = λ h i. omega (arith, a.exact (b.stops h) i, b.exact h i);
  }

  pub get_elem?_lt :
      {A : Type 0} (xs : List A) (i : ℕ) (a : A) → get_elem? xs i ≡ some a → i < length xs
  get_elem?_lt [] i a h = absurd (cc)
  get_elem?_lt (x ∷ xs) zero a h = omega arith
  get_elem?_lt (x ∷ xs) (suc i) a h = omega (arith, get_elem?_lt xs i a h)

  get_elem?_ge : {A : Type 0} (xs : List A) (i : ℕ) → get_elem? xs i ≡ none → length xs ≤ i
  get_elem?_ge [] i h = omega arith
  get_elem?_ge (x ∷ xs) zero h = absurd (cc)
  get_elem?_ge (x ∷ xs) (suc i) h = omega (arith, get_elem?_ge xs i h)

  pub take_piece_cases :
      (s : Wide T)
      → (take_piece q s ≡ (s, returned)) × ((s.stop ≡ none → length q.pieces ≤ s.next))
        ⊎ ((pc : Piece) × (s.next < length q.pieces)
            × (take_piece q s ≡ (
              record s {
                next = s.next + 1;
                dates = if q.obj_hash == 0 then add s.dates pc.date else s.dates;
              },
              asks s.next,
            )))
  unfolding take_piece
  take_piece_cases s = elim (Option-cases s.stop) [
    | inr (c, e) ↦ inl (ap (λ o. take_next q o (get_elem? q.pieces s.next) s) e, λ h. absurd (cc))
    | inl e ↦
        let first = ap (λ o. take_next q o (get_elem? q.pieces s.next) s) e in
        elim (Option-cases (get_elem? q.pieces s.next)) [
          | inl f ↦
              inl (first ∙ ap (λ o. take_next q none o s) f, λ h. get_elem?_ge q.pieces s.next f)
          | inr (pc, f) ↦
              inr (pc, get_elem?_lt q.pieces s.next pc f, first ∙ ap (λ o. take_next q none o s) f)
        ]
  ]

  pub Moves-take_piece : (s : Wide T) → Moves s returned (take_piece q s).0 (take_piece q s).1
  Moves-take_piece s = elim (take_piece_cases s) [
    | inl (e, _) ↦ rw e (record {
      same_workers = refl;
      same_rejected = refl;
      fin_len = refl;
      later = omega arith;
      in_range = λ h. h;
      stops = λ h. h;
      bounded = λ i. omega arith;
      exact = λ h i. refl;
    })
    | inr (pc, lt, e) ↦ rw e (record {
      same_workers = refl;
      same_rejected = refl;
      fin_len = refl;
      later = omega arith;
      in_range = λ h. omega (arith, lt);
      stops = λ h. h;
      bounded = λ i. ground arith;
      exact = λ h i. ground arith;
    })
  ]

  -- When a worker gives up on the pieces, none is left, or the search is stopped.
  pub take_piece_full :
      (s : Wide T)
      → (take_piece q s).0.stop ≡ none
      → has_returned (take_piece q s).1 ≡ true
      → length q.pieces ≤ (take_piece q s).0.next
  take_piece_full s h r = elim (take_piece_cases s) [
    | inl (e, f) ↦ rw e (f (rw e at h))
    | inr (pc, lt, e) ↦ let r2 : false ≡ true = rw e at r in absurd (cc)
  ]

  pub Moves-ask_page :
      (s : Wide T) (w : WideWorker) (is_cancelled : Bool) (i : ℕ) (hashes : List ℕ)
      (cursor : Option PastCursor)
      → ((k : ℕ) → holds w k ≡ (if i == k then 1 else 0))
      → Moves s w
          (ask_page q s is_cancelled i hashes cursor).0
          (ask_page q s is_cancelled i hashes cursor).1
  unfolding ask_page
  Moves-ask_page s w is_cancelled i hashes cursor f =
      go (if is_cancelled then or_stop s.stop cancelled else s.stop) (kept_none is_cancelled)
    where
      kept_none :
          (b : Bool) → (if b then or_stop s.stop cancelled else s.stop) ≡ none → s.stop ≡ none
      kept_none b h = ground arith

      go :
          (o : Option Cut)
          → (o ≡ none → s.stop ≡ none)
          → Moves s w (ask_next q o s i hashes cursor).0 (ask_next q o s i hashes cursor).1
      go none g = record {
        same_workers = refl;
        same_rejected = refl;
        fin_len = refl;
        later = omega arith;
        in_range = λ h. h;
        stops = g;
        bounded = λ k. omega (arith, f k);
        exact = λ h k. omega (arith, f k);
      }
      go (some c) g = record {
        same_workers = refl;
        same_rejected = refl;
        fin_len = refl;
        later = omega arith;
        in_range = λ h. h;
        stops = λ h. absurd (cc);
        bounded = λ k. omega arith;
        exact = λ h. absurd (cc);
      }

  pub ask_page_full :
      (s : Wide T) (is_cancelled : Bool) (i : ℕ) (hashes : List ℕ) (cursor : Option PastCursor)
      → (ask_page q s is_cancelled i hashes cursor).0.stop ≡ none
      → has_returned (ask_page q s is_cancelled i hashes cursor).1 ≡ true
      → length q.pieces ≤ (ask_page q s is_cancelled i hashes cursor).0.next
  unfolding ask_page
  ask_page_full s is_cancelled i hashes cursor =
      go (if is_cancelled then or_stop s.stop cancelled else s.stop)
    where
      go :
          (o : Option Cut)
          → (ask_next q o s i hashes cursor).0.stop ≡ none
          → has_returned (ask_next q o s i hashes cursor).1 ≡ true
          → length q.pieces ≤ (ask_next q o s i hashes cursor).0.next
      go none h r = absurd (cc)
      go (some c) h r = absurd (cc)

  -- A piece that its worker has is marked; it was not marked before.
  pub Moves-finish_piece :
      (s : Wide T) (w : WideWorker) (i : ℕ)
      → ((k : ℕ) → holds w k ≡ (if i == k then 1 else 0))
      → i < length s.finished
      → done_at s.finished i ≡ 0
      → Moves s w (finish_piece q s i) returned
  unfolding finish_piece
  Moves-finish_piece s w i f lt z = record {
    same_workers = refl;
    same_rejected = refl;
    fin_len = length-set s.finished i true;
    later = omega arith;
    in_range = λ h. h;
    stops = λ h. ground (arith, h);
    bounded = λ k. ground (arith, f k, done_at-set s.finished i k lt, z);
    exact = λ h k. ground (arith, f k, done_at-set s.finished i k lt, z);
  }

  pub Moves-push_rows :
      (s : Wide T) (w : WideWorker) (page : WidePage) → Moves s w (push_rows q s page) w
  Moves-push_rows s w page = record {
    same_workers = refl;
    same_rejected = refl;
    fin_len = refl;
    later = omega arith;
    in_range = λ h. h;
    stops = λ h. h;
    bounded = λ k. omega arith;
    exact = λ h k. refl;
  }
