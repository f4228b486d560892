-- ===== src/PixelQuery/Tests.antt =====
-- A click between two points, one of which is nearer, and a third one off to the left.
use nscouter.PixelQuery.Pixels.{Near, distance_sq, find_nearest_pixel-nearest}
use nscouter.PixelQuery.{Click, find_nearest_pixel, hit_at, scan_rows, scan_row, dist, square_of}
use nscouter.Base.{ℕ, refl, none, some, [], arith, ◌≤◌, ◌≡◌, ◌∷◌, nat_eq, list_eq}
use nscouter.Base.Maps.{get}

-- On a canvas ten pixels wide: points at (1, 1), (5, 1) and (3, 3).
abbrev click : Click
click = record {
  index = (11, 0) ∷ (15, 1) ∷ (33, 2) ∷ [];
  canvas_width = 10;
  cx = 4;
  cy = 1;
  radius = 2;
}

second_point : find_nearest_pixel click ≡ some 1
unfolding find_nearest_pixel scan_rows scan_row hit_at dist square_of get
second_point = refl

-- At the left edge the square ends with the canvas: the last pixel of the row above is not taken.
at_edge : find_nearest_pixel (record click { index = (9, 7) ∷ []; cx = 0 }) ≡ none
unfolding find_nearest_pixel scan_rows scan_row hit_at dist square_of get
at_edge = refl

third_point : Near click 3 3 2
unfolding get
third_point = (omega arith, omega arith, omega arith, refl)

find_nearest_pixel-nearest_example :
    (hit : ℕ) × (u : ℕ) × (v : ℕ) × (find_nearest_pixel click ≡ some hit)
    × Near click u v hit
    × (distance_sq click u v ≤ distance_sq click 3 3)
find_nearest_pixel-nearest_example = find_nearest_pixel-nearest click 3 3 2 third_point
