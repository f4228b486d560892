-- ===== src/Search/Pieces.antt =====
-- The pieces of a wide search.
use nscouter.Base.{
  ltb, Bool-cases, ℕ, zero, suc, max, refl, inl, inr, List, [], arith, ◌+◌, ◌-◌, ◌≤◌, ◌<◌, ◌≡◌, ◌∷◌,
}
use nscouter.Search.{Piece, Text, pieces_from, plan_pieces, piece_end}

module _ (midnight : ℕ → ℕ) (yyyymmdd : ℕ → Text) where
  -- The pieces lie end to end from `s` to `etime`, none is empty, longer than `piece` (at least one
  -- millisecond), or beyond the midnight after its start, by whose date it is asked for.
  abbrev pub Tiles : ℕ → ℕ → ℕ → List Piece → Type 0
  Tiles s etime piece [] = etime ≤ s
  Tiles s etime piece (p ∷ ps) =
      (p.s ≡ s)
      × (s < p.e)
      × (p.e ≤ s + max 1 piece)
      × (p.e ≤ midnight s)
      × (p.e ≤ etime)
      × (p.date ≡ yyyymmdd s)
      × Tiles p.e etime piece ps

  Tiles-pieces_from :
      (fuel s etime piece : ℕ)
      → ((t : ℕ) → t < midnight t)
      → etime ≤ s + fuel
      → Tiles s etime piece (pieces_from midnight yyyymmdd fuel s etime piece)
  unfolding pieces_from
  Tiles-pieces_from zero s etime piece m h = omega arith
  Tiles-pieces_from (suc fuel) s etime piece m h = elim (Bool-cases (ltb s etime)) [
    | inr e ↦ rw e (ground arith)
    | inl e ↦
        let end = piece_end midnight yyyymmdd s etime piece in
        let later : s < end = ground (arith, m s) in
        rw e (
          refl,
          later,
          omega arith,
          omega arith,
          omega arith,
          refl,
          Tiles-pieces_from fuel end etime piece m (omega (arith, later)),
        )
  ]

  -- Whatever range is asked for, the loop ends, and the pieces cover it without gap or overlap. None
  -- is empty, none is longer than the step, and none goes beyond the midnight after its start. (The
  -- next midnight is later than the time that it is asked for.)
  pub plan_pieces-Tiles :
      (stime etime piece : ℕ)
      → ((t : ℕ) → t < midnight t)
      → Tiles stime etime piece (plan_pieces midnight yyyymmdd stime etime piece)
  unfolding plan_pieces
  plan_pieces-Tiles stime etime piece m =
      Tiles-pieces_from (etime - stime) stime etime piece m (omega arith)
