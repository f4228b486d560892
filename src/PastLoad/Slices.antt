-- ===== src/PastLoad/Slices.antt =====
-- The slices of a range.
use nscouter.Base.{
  length, ℕ, zero, suc, max, refl, subst, List, [], arith, ◌+◌, ◌-◌, ◌*◌, ◌/◌, ◌≤◌, ◌<◌, ◌≡◌, ◌∷◌,
  ◌==◌, if◌then◌else◌,
}
use nscouter.PastLoad.{plan_slices, slices_from, slice_count}
use native.Mathlib.Nat.{div-eq_of_lt, mul-div_cancel, le-div_iff_mul-le, div-mul-le_self}

-- The slices lie end to end from `s` to `etime`, and none runs backward.
abbrev pub Tiles : ℕ → ℕ → List (ℕ × ℕ) → Type 0
Tiles s etime [] = s ≡ etime
Tiles s etime ((a, b) ∷ rest) = (a ≡ s) × (a ≤ b) × Tiles b etime rest

cut_zero : (s span n : ℕ) → 0 < n → s + span * 0 / n ≡ s
cut_zero s span n l = omega (arith, div-eq_of_lt l)

cut_full : (span n i : ℕ) → i ≡ n → 0 < n → span * i / n ≡ span
cut_full span n i e l = rw e (mul-div_cancel span l)

cut_le : (span n i : ℕ) → 0 < n → span * i / n ≤ span * (i + 1) / n
cut_le span n i l = (le-div_iff_mul-le l).1 (omega (arith, div-mul-le_self (span * i) n))

-- The end of slice `i`, as it is written for the last one and for the others.
slice_end : (etime x n i : ℕ) → (i ≡ n - 1 → x ≡ etime) → (if i == n - 1 then etime else x) ≡ x
slice_end etime x n i h = ground arith

slices_from-Tiles :
    (stime etime span n i k : ℕ)
    → stime + span ≡ etime
    → i + k ≡ n
    → 0 < n
    → Tiles (stime + span * i / n) etime (slices_from stime etime span n i k)
unfolding slices_from
slices_from-Tiles stime etime span n i zero h e l =
    omega (arith, cut_full span n i (omega (arith, e)) l)
slices_from-Tiles stime etime span n i (suc k) h e l =
    let last : i ≡ n - 1 → stime + span * (i + 1) / n ≡ etime =
      λ h2. omega (arith, cut_full span n (i + 1) (omega (arith, h2, e)) l) in
    let b = slice_end etime (stime + span * (i + 1) / n) n i last in
    let rest = slices_from-Tiles stime etime span n (i + 1) k h (omega (arith, e)) l in
    (refl, rw b (omega (arith, cut_le span n i l)), rw b rest)

length-slices_from : (stime etime span n i k : ℕ) → length (slices_from stime etime span n i k) ≡ k
unfolding slices_from
length-slices_from stime etime span n i zero = refl
length-slices_from stime etime span n i (suc k) =
    omega (arith, length-slices_from stime etime span n (i + 1) k)

-- The slices of a range lie end to end from its start to its end, none runs backward, and there are
-- as many as are asked for at most, with one at least.
pub plan_slices-Tiles :
    (parallel stime etime : ℕ)
    → stime ≤ etime
    → Tiles stime etime (plan_slices parallel stime etime)
      × (length (plan_slices parallel stime etime) ≤ max 1 parallel)
      × (1 ≤ length (plan_slices parallel stime etime))
unfolding plan_slices
plan_slices-Tiles parallel stime etime h =
    let span = etime - stime in
    let n = slice_count parallel span in
    let t = slices_from-Tiles stime etime span n 0 n (omega arith) (omega arith) (omega arith) in
    let k = length-slices_from stime etime span n 0 n in
    (
      subst (λ s. Tiles s etime (slices_from stime etime span n 0 n))
          (cut_zero stime span n (omega arith)) t,
      omega (arith, k),
      omega (arith, k),
    )
