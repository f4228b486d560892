-- ===== src/PastLoad/Live.antt =====
-- The load comes to an end.
use nscouter.PastLoad.Pages.{
  requests_out, Run, Sound, answer-counts, start_from-Sound, answer-Sound,
}
use nscouter.Base.{
  length, get_elem?, ℕ, zero, suc, refl, inl, inr, Option, some, List, [], arith, ◌+◌, ◌≤◌, ◌≡◌,
  ◌⊎◌, ◌∷◌, nat_eq, list_eq,
}
use nscouter.PastLoad.{
  PastCursor, Page, Worker, waiting, ended, Load, answer, start, max_pages, no_load,
}
use nscouter.PastLoad.Ends.{Run-counted, Run-Sound, no_load-Sound}

-- A request that is out, when there is one.
find_out :
    (ws : List Worker)
    → (requests_out ws ≡ 0)
      ⊎ ((i : ℕ) × (c : Option PastCursor) × (get_elem? ws i ≡ some (waiting c)))
find_out [] = inl refl
find_out (waiting c ∷ ws) = inr (0, c, refl)
find_out (ended ∷ ws) = elim (find_out ws) [
  | inl e ↦ inl (omega (arith, e))
  | inr (i, c, e) ↦ inr (suc i, c, e)
]

module _ (collector : ℕ → Option PastCursor → Option Page) where
  -- The load comes from `s` to `t` in so many answers, all of them the collector's to requests that
  -- are out.
  pub data Served (t : Load) : Load → ℕ → Type 0 where
    rests : {s : Load} → s ≡ t → Served t s 0
    serves :
        {s : Load} {n : ℕ} (i : ℕ) (c : Option PastCursor)
        → get_elem? s.workers i ≡ some (waiting c)
        → Served t (answer s i c (collector i c)) n
        → Served t s (n + 1)

  -- With `n` more answers to come at most, the load is run on to its end.
  reach_end :
      (n : ℕ) (s : Load)
      → Sound s
      → requests_out s.workers + max_pages ≤ n + s.pages
      → (t : Load) × (k : ℕ) × Served t s k
        × (requests_out t.workers ≡ 0)
        × (t.pages ≤ max_pages)
        × (k + s.pages ≡ requests_out s.workers + t.pages)
  reach_end zero s v h = (s, 0, rests refl, omega (arith, v.few), v.few, omega (arith, v.few))
  reach_end (suc n) s v h = elim (find_out s.workers) [
    | inl e ↦ (s, 0, rests refl, e, v.few, omega (arith, e))
    | inr (i, c, e) ↦
        let a = collector i c in
        let k = answer-counts s i c a e in
        let (t, m, r, z, few, count) =
          reach_end n (answer s i c a) (answer-Sound s i c a v) (omega (arith, k)) in
        (t, m + 1, serves i c e r, z, few, omega (arith, k, count))
  ]

-- From wherever a load has come to, whatever the collector answers: its answers to the requests that
-- are out, and to those that follow, bring the load to a state where no request is out. They and
-- those that came before are the pages counted, no more than `max_pages`.
pub Run-ends :
    (collector : ℕ → Option PastCursor → Option Page) (slices : List (ℕ × ℕ)) (s : Load)
    (rs : List (Option Page))
    → Run s (start slices) rs
    → (t : Load) × (k : ℕ) × Served collector t s k
      × (requests_out t.workers ≡ 0)
      × (length rs + k ≡ t.pages)
      × (t.pages ≤ max_pages)
unfolding start
Run-ends collector slices s rs r =
    let v = Run-Sound r (start_from-Sound no_load slices no_load-Sound) in
    let (t, k, q, z, few, count) =
      reach_end collector (requests_out s.workers + max_pages) s v (omega arith) in
    let (n, _, _, _) = Run-counted slices s rs r in (t, k, q, z, omega (arith, n, count), few)
