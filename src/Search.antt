-- ===== src/Search.antt =====
-- features/xlog/hooks/wideSearchAll.ts: a wide search is cut into pieces, none over midnight. The
-- calendar is a parameter: `midnight` is the next local midnight, `yyyymmdd` the local date.
pub mod Pieces
pub mod Workers
pub mod Held
pub mod Moves
pub mod Books
pub mod Runs
pub mod Complete
pub mod Rows
mod Tests
use nscouter.Base.{ltb, ℕ, zero, suc, min, max, List, [], ◌+◌, ◌-◌, ◌*◌, ◌∷◌, ◌==◌, if◌then◌else◌}
use nscouter.Base.Int.{pos, negsuc}
use nscouter.Base.Text.{Text}
use nscouter.Base.Numbers.{Number, milli, not_finite, round}

abbrev pub wide_total_cap : ℕ
wide_total_cap = 300_000

abbrev pub piece_ms : ℕ
piece_ms = 5 * 60_000

pub record Piece : Type 0 where
  pub date : Text
  pub s : ℕ
  pub e : ℕ

abbrev pub min_wide_max : ℕ
min_wide_max = 10_000

abbrev pub limit_wide_max : ℕ
limit_wide_max = 1_000_000

-- The argument is what `Number(v)` gives.
unfoldable pub clamp_wide_max : Number → ℕ
unfolding round
clamp_wide_max (milli (pos m)) =
    if m == 0 then wide_total_cap else min (max (round m) min_wide_max) limit_wide_max
clamp_wide_max (milli (negsuc m)) = wide_total_cap
clamp_wide_max not_finite = wide_total_cap

module _ (midnight : ℕ → ℕ) (yyyymmdd : ℕ → Text) where
  abbrev pub piece_end : ℕ → ℕ → ℕ → ℕ
  piece_end s etime piece = min (min (s + max 1 piece) (midnight s)) etime

  -- The loop from `s`; each round takes a millisecond or more, so `etime - stime` rounds are enough.
  unfoldable pub pieces_from : ℕ → ℕ → ℕ → ℕ → List Piece
  pieces_from zero s etime piece = []
  pieces_from (suc fuel) s etime piece =
      let e = piece_end s etime piece in
      let rest = pieces_from fuel e etime piece in
      if ltb s etime then record { date = yyyymmdd s; s = s; e = e } ∷ rest else []

  unfoldable pub plan_pieces : ℕ → ℕ → ℕ → List Piece
  plan_pieces stime etime piece = pieces_from (etime - stime) stime etime piece
