-- ===== src/PixelQuery.antt =====
-- features/xlog/engine/pixelQuery.ts: the point of the chart that a click means. An offset `dy` from
-- `-radius` to `radius` is a number `k` from 0 to `2 * radius`; likewise `l` for `dx`.
pub mod Nearest
pub mod Pixels
mod Tests
use nscouter.Base.{
  ltb, leb, ℕ, zero, suc, Option, none, some, List, [], ◌+◌, ◌-◌, ◌*◌, ◌||◌, ◌∷◌, if◌then◌else◌,
  nat_eq, list_eq,
}
use nscouter.Base.Maps.{get}

-- The arguments, with the click rounded to a pixel of the canvas.
pub record Click : Type 0 where
  pub index : List (ℕ × ℕ)
  pub canvas_width : ℕ
  pub cx : ℕ
  pub cy : ℕ
  pub radius : ℕ

-- `bestDist` and `best`; `none` as long as they are `Infinity` and undefined.
abbrev pub Best : Type 0
Best = Option (ℕ × ℕ)

abbrev pub side : Click → ℕ
side q = 2 * q.radius + 1

-- `index.get(y * canvasWidth + x)`, and nothing for a pixel off the canvas.
unfoldable pub hit_at : Click → ℕ → ℕ → Option ℕ
hit_at q k l =
    if ltb (q.cy + k) q.radius
      || ltb (q.cx + l) q.radius
      || leb q.canvas_width (q.cx + l - q.radius)
    then none
    else get q.index ((q.cy + k - q.radius) * q.canvas_width + (q.cx + l - q.radius))

-- `d * d` of the offset that `k` stands for.
unfoldable pub square_of : Click → ℕ → ℕ
square_of q k = let d = (k - q.radius) + (q.radius - k) in d * d

unfoldable pub dist : Click → ℕ → ℕ → ℕ
dist q k l = square_of q l + square_of q k

abbrev pub closer : ℕ → ℕ → Best → Best
closer d hit none = some (d, hit)
closer d hit (some b) = if ltb d b.0 then some (d, hit) else some b

abbrev pub try_pixel : ℕ → Option ℕ → Best → Best
try_pixel d none best = best
try_pixel d (some hit) best = closer d hit best

-- The loop over `dx`, from `l` on for `n` pixels.
unfoldable pub scan_row : Click → ℕ → ℕ → ℕ → Best → Best
scan_row q k zero l best = best
scan_row q k (suc n) l best = scan_row q k n (l + 1) (try_pixel (dist q k l) (hit_at q k l) best)

-- The loop over `dy`.
unfoldable pub scan_rows : Click → ℕ → ℕ → Best → Best
scan_rows q zero k best = best
scan_rows q (suc n) k best = scan_rows q n (k + 1) (scan_row q k (side q) 0 best)

abbrev pub best_hit : Best → Option ℕ
best_hit none = none
best_hit (some b) = some b.1

unfoldable pub find_nearest_pixel : Click → Option ℕ
find_nearest_pixel q = elim q.index [ [] ↦ none | p ∷ ps ↦ best_hit (scan_rows q (side q) 0 none) ]
