-- ===== src/PixelQuery/Pixels.antt =====
-- The offsets that are scanned are the pixels around the click.
use nscouter.PixelQuery.Nearest.{nearest_offsets}
use nscouter.PixelQuery.{Click, hit_at, dist, square_of, find_nearest_pixel}
use nscouter.Base.{
  ltb, leb, Bool-cases, ℕ, refl, sym, inl, inr, true, false, some, arith, ◌+◌, ◌-◌, ◌*◌, ◌≤◌, ◌<◌,
  ◌≡◌, ◌∙◌, ◌≢◌, ◌||◌, nat_eq, list_eq,
}
use nscouter.Base.Maps.{get}

-- The distance of two numbers, and its square.
abbrev pub gap : ℕ → ℕ → ℕ
gap m n = (m - n) + (n - m)

abbrev pub distance_sq : Click → ℕ → ℕ → ℕ
distance_sq q x y = gap x q.cx * gap x q.cx + gap y q.cy * gap y q.cy

-- Pixel (x, y) of the canvas holds the point, and is no more than the radius to the side of the
-- click, above or below.
abbrev pub Near : Click → ℕ → ℕ → ℕ → Type 0
Near q x y point =
    (x < q.canvas_width)
    × (gap x q.cx ≤ q.radius)
    × (gap y q.cy ≤ q.radius)
    × (get q.index (y * q.canvas_width + x) ≡ some point)

hit_at-pixel :
    (q : Click) (k l x y : ℕ)
    → q.cy + k ≡ y + q.radius
    → q.cx + l ≡ x + q.radius
    → x < q.canvas_width
    → hit_at q k l ≡ get q.index (y * q.canvas_width + x)
unfolding hit_at
hit_at-pixel q k l x y a b w =
    let ey : q.cy + k - q.radius ≡ y = omega (arith, a) in
    let ex : q.cx + l - q.radius ≡ x = omega (arith, b) in
    let off : (ltb (q.cy + k) q.radius
          || ltb (q.cx + l) q.radius
          || leb q.canvas_width (q.cx + l - q.radius))
        ≡ false =
      ground (arith, a, b, w) in
    rw (off, ey, ex) refl

off_canvas :
    (q : Click) (k l hit : ℕ)
    → (ltb (q.cy + k) q.radius
        || ltb (q.cx + l) q.radius
        || leb q.canvas_width (q.cx + l - q.radius))
      ≡ true
    → hit_at q k l ≢ some hit
unfolding hit_at
off_canvas q k l hit e h = let none_there = rw e at h in absurd (cc)

pixel_of :
    (q : Click) (k l hit : ℕ)
    → hit_at q k l ≡ some hit
    → (x : ℕ) × (y : ℕ) × (q.cy + k ≡ y + q.radius)
      × (q.cx + l ≡ x + q.radius)
      × (x < q.canvas_width)
pixel_of q k l hit h =
    elim (Bool-cases (
      ltb (q.cy + k) q.radius
      || ltb (q.cx + l) q.radius
      || leb q.canvas_width (q.cx + l - q.radius))) [
        | inl e ↦ absurd (off_canvas q k l hit e h)
        | inr e ↦ (
          q.cx + l - q.radius,
          q.cy + k - q.radius,
          ground (arith, e),
          ground (arith, e),
          ground (arith, e),
        )
      ]

dist-pixel :
    (q : Click) (k l x y : ℕ)
    → q.cy + k ≡ y + q.radius
    → q.cx + l ≡ x + q.radius
    → dist q k l ≡ distance_sq q x y
unfolding dist square_of
dist-pixel q k l x y a b =
    let ey : gap k q.radius ≡ gap y q.cy = omega (arith, a) in
    let ex : gap l q.radius ≡ gap x q.cx = omega (arith, b) in rw (ey, ex) refl

-- If some pixel of the canvas that is no more than the radius to the side of the click, above or
-- below, holds a point, then a point is found; it stands on such a pixel, no farther from the click.
pub find_nearest_pixel-nearest :
    (q : Click) (x y point : ℕ)
    → Near q x y point
    → (hit : ℕ) × (u : ℕ) × (v : ℕ) × (find_nearest_pixel q ≡ some hit)
      × Near q u v hit
      × (distance_sq q u v ≤ distance_sq q x y)
find_nearest_pixel-nearest q x y point (w, gx, gy, g) =
    let j = y + q.radius - q.cy in
    let i = x + q.radius - q.cx in
    let ej : q.cy + j ≡ y + q.radius = omega (arith, gy) in
    let ei : q.cx + i ≡ x + q.radius = omega (arith, gx) in
    let (hit, k, l, found, a, b, h, d) =
      nearest_offsets q j i point (omega (arith, gy)) (omega (arith, gx))
        (hit_at-pixel q j i x y ej ei w ∙ g) in
    let (u, v, ev, eu, lt) = pixel_of q k l hit h in
    (
      hit,
      u,
      v,
      found,
      (lt, omega (arith, eu, b), omega (arith, ev, a), sym (hit_at-pixel q k l u v ev eu lt) ∙ h),
      omega (arith, dist-pixel q k l u v ev eu, dist-pixel q j i x y ej ei, d),
    )
