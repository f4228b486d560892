-- ===== src/Base/Numbers.antt =====
-- A JavaScript number that a setting or a divider may hold: a finite one, in thousandths, or one
-- that `Number.isFinite` refuses. Times, counts and hashes are integers and are modelled by ℕ.
use nscouter.Base.Int.{ℤ}
use Prim.Native.Nat.{ℕ, ◌+◌, ◌/◌}

pub data Number : Type 0 where
  milli : ℤ → Number
  not_finite : Number

-- `Math.round` of a number that is not negative.
unfoldable pub round : ℕ → ℕ
round m = (m + 500) / 1000
