-- ===== src/PixelQuery/Nearest.antt =====
-- The point that is found is a nearest one.
use nscouter.Base.Maps.{get}
use nscouter.PixelQuery.{
  Best, Click, scan_row, scan_rows, side, try_pixel, dist, hit_at, best_hit, find_nearest_pixel,
}
use nscouter.Base.{
  ltb, leb, Bool-cases, ℕ, zero, suc, refl, subst, inl, inr, Bool, true, false, Option, none, some,
  List, [], arith, ◌+◌, ◌≤◌, ◌<◌, ◌≡◌, ◌≢◌, ◌∷◌, ◌==◌, if◌then◌else◌, nat_eq, list_eq,
}

-- Something as near as `d` has been found.
abbrev pub within : Best → ℕ → Bool
within none d = false
within (some b) d = leb b.0 d

-- What has been found stands on a pixel near the click.
abbrev Found : Click → Best → Type 0
Found q none = Unit
Found q (some b) =
    (k : ℕ) × (l : ℕ) × (k < side q) × (l < side q) × (hit_at q k l ≡ some b.1) × (dist q k l ≡ b.0)

try_pixel-keeps :
    (e d : ℕ) (o : Option ℕ) (best : Best)
    → within best d ≡ true
    → within (try_pixel e o best) d ≡ true
try_pixel-keeps e d none best h = h
try_pixel-keeps e d (some hit) none h = absurd (cc)
try_pixel-keeps e d (some hit) (some b) h = ground arith

try_pixel-takes : (d : ℕ) (hit : ℕ) (best : Best) → within (try_pixel d (some hit) best) d ≡ true
try_pixel-takes d hit none = ground arith
try_pixel-takes d hit (some b) = ground arith

scan_row-keeps :
    (q : Click) (k n l d : ℕ) (best : Best)
    → within best d ≡ true
    → within (scan_row q k n l best) d ≡ true
unfolding scan_row
scan_row-keeps q k zero l d best h = h
scan_row-keeps q k (suc n) l d best h =
    scan_row-keeps q k n (l + 1) d _ (try_pixel-keeps (dist q k l) d (hit_at q k l) best h)

scan_rows-keeps :
    (q : Click) (n k d : ℕ) (best : Best)
    → within best d ≡ true
    → within (scan_rows q n k best) d ≡ true
unfolding scan_rows
scan_rows-keeps q zero k d best h = h
scan_rows-keeps q (suc n) k d best h =
    scan_rows-keeps q n (k + 1) d _ (scan_row-keeps q k (side q) 0 d best h)

-- The loop over a row comes by each of its pixels.
scan_row-within :
    (q : Click) (k n l i hit : ℕ) (best : Best)
    → l ≤ i
    → i < l + n
    → hit_at q k i ≡ some hit
    → within (scan_row q k n l best) (dist q k i) ≡ true
unfolding scan_row
scan_row-within q k zero l i hit best a b h = absurd (omega (arith, a, b))
scan_row-within q k (suc n) l i hit best a b h = elim (Bool-cases (l == i)) [
  | inl e ↦
      let same : l ≡ i = ground (arith, e) in
      let there : hit_at q k l ≡ some hit = rw same h in
      let now : within (try_pixel (dist q k l) (hit_at q k l) best) (dist q k l) ≡ true =
        rw there (try_pixel-takes (dist q k l) hit best) in
      subst
        (λ j.
          within (scan_row q k n (l + 1) (try_pixel (dist q k l) (hit_at q k l) best)) (dist q k j)
          ≡ true)
        same (scan_row-keeps q k n (l + 1) (dist q k l) _ now)
  | inr e ↦ scan_row-within q k n (l + 1) i hit _ (ground (arith, e, a)) (omega (arith, b)) h
]

scan_rows-within :
    (q : Click) (n k j i hit : ℕ) (best : Best)
    → k ≤ j
    → j < k + n
    → i < side q
    → hit_at q j i ≡ some hit
    → within (scan_rows q n k best) (dist q j i) ≡ true
unfolding scan_rows
scan_rows-within q zero k j i hit best a b c h = absurd (omega (arith, a, b))
scan_rows-within q (suc n) k j i hit best a b c h = elim (Bool-cases (k == j)) [
  | inl e ↦
      let same : k ≡ j = ground (arith, e) in
      let there : hit_at q k i ≡ some hit = rw same h in
      subst (λ m. within (scan_rows q n (k + 1) (scan_row q k (side q) 0 best)) (dist q m i) ≡ true)
        same
        (scan_rows-keeps q n (k + 1) (dist q k i) _
          (scan_row-within q k (side q) 0 i hit best (omega arith) (omega (arith, c)) there))
  | inr e ↦ scan_rows-within q n (k + 1) j i hit _ (ground (arith, e, a)) (omega (arith, b)) c h
]

Found-try_pixel :
    (q : Click) (k l : ℕ) (best : Best)
    → k < side q
    → l < side q
    → Found q best
    → Found q (try_pixel (dist q k l) (hit_at q k l) best)
Found-try_pixel q k l best a b f = go (hit_at q k l) best refl f
  where
    go :
        (o : Option ℕ) (best : Best)
        → hit_at q k l ≡ o
        → Found q best
        → Found q (try_pixel (dist q k l) o best)
    go none best e f = f
    go (some hit) none e f = (k, l, a, b, e, refl)
    go (some hit) (some c) e f = elim (Bool-cases (ltb (dist q k l) c.0)) [
      | inl g ↦ rw g (k, l, a, b, e, refl)
      | inr g ↦ rw g f
    ]

Found-scan_row :
    (q : Click) (k n l : ℕ) (best : Best)
    → k < side q
    → l + n ≤ side q
    → Found q best
    → Found q (scan_row q k n l best)
unfolding scan_row
Found-scan_row q k zero l best a b f = f
Found-scan_row q k (suc n) l best a b f =
    Found-scan_row q k n (l + 1) _ a (omega (arith, b))
      (Found-try_pixel q k l best a (omega (arith, b)) f)

Found-scan_rows :
    (q : Click) (n k : ℕ) (best : Best)
    → k + n ≤ side q
    → Found q best
    → Found q (scan_rows q n k best)
unfolding scan_rows
Found-scan_rows q zero k best b f = f
Found-scan_rows q (suc n) k best b f =
    Found-scan_rows q n (k + 1) _ (omega (arith, b))
      (Found-scan_row q k (side q) 0 best (omega (arith, b)) (omega arith) f)

-- The best of the loops is what a pixel near the click holds, and none is nearer.
best-Nearest :
    (q : Click) (best : Best) (d : ℕ)
    → Found q best
    → within best d ≡ true
    → (hit : ℕ) × (k : ℕ) × (l : ℕ) × (best_hit best ≡ some hit)
      × (k < side q)
      × (l < side q)
      × (hit_at q k l ≡ some hit)
      × (dist q k l ≤ d)
best-Nearest q none d f w = absurd (cc)
best-Nearest q (some b) d (k, l, a, c, e, g) w = (b.1, k, l, refl, a, c, e, ground (arith, g, w))

from_empty :
    (b : Bool) (ps : List (ℕ × ℕ)) (key hit : ℕ)
    → ps ≡ []
    → (if b then none else get ps key) ≢ some hit
unfolding get
from_empty true ps key hit e h = absurd (cc)
from_empty false [] key hit e h = absurd (cc)
from_empty false (p ∷ ps) key hit e h = absurd (cc)

hit_at-empty : (q : Click) (j i hit : ℕ) → q.index ≡ [] → hit_at q j i ≢ some hit
unfolding hit_at
hit_at-empty q j i hit e h = from_empty _ q.index _ hit e h

-- The offsets that are scanned.
pub nearest_offsets :
    (q : Click) (j i point : ℕ)
    → j < side q
    → i < side q
    → hit_at q j i ≡ some point
    → (hit : ℕ) × (k : ℕ) × (l : ℕ) × (find_nearest_pixel q ≡ some hit)
      × (k < side q)
      × (l < side q)
      × (hit_at q k l ≡ some hit)
      × (dist q k l ≤ dist q j i)
unfolding find_nearest_pixel
nearest_offsets q j i point a b h = go q.index refl
  where
    go :
        (ps : List (ℕ × ℕ))
        → q.index ≡ ps
        → (hit : ℕ) × (k : ℕ) × (l : ℕ) × (elim ps [
          | [] ↦ none
          | p ∷ rest ↦ best_hit (scan_rows q (side q) 0 none)
        ]
            ≡ some hit)
          × (k < side q)
          × (l < side q)
          × (hit_at q k l ≡ some hit)
          × (dist q k l ≤ dist q j i)
    go [] e = absurd (hit_at-empty q j i point e h)
    go (p ∷ ps) e =
        best-Nearest q (scan_rows q (side q) 0 none) (dist q j i)
          (Found-scan_rows q (side q) 0 none (omega arith) tt)
          (scan_rows-within q (side q) 0 j i point none (omega arith) (omega (arith, a)) b h)
