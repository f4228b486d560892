-- ===== src/Base/Digits.antt =====
-- Numerals: no two numbers are written alike.
use nscouter.Base.Text.{Text, decimal, digits_from}
use native.Mathlib.Nat.{div-add-mod}
use Prim.Native.Nat.{ℕ, zero, suc, ◌+◌, ◌-◌, ◌*◌, ◌/◌, ◌%◌, ◌≤◌, ◌<◌}
use nscouter.Base.{Bool-cases, refl, ap, inl, inr, [], arith, ◌≡◌, ◌∙◌, ◌∷◌, ◌++◌, ◌==◌}

-- The number that is read from a numeral, after `v`.
abbrev pub value_from : ℕ → Text → ℕ
value_from v [] = v
value_from v (c ∷ s) = value_from (v * 10 + (c - b'0')) s

pub value_from-append : (v : ℕ) (s t : Text) → value_from v (s ++ t) ≡ value_from (value_from v s) t
value_from-append v [] t = refl
value_from-append v (c ∷ s) t = value_from-append (v * 10 + (c - b'0')) s t

value_from-digits_from :
    (fuel n : ℕ) (acc : Text) → n ≤ fuel → value_from 0 (digits_from fuel n acc) ≡ value_from n acc
unfolding digits_from
value_from-digits_from zero n acc h = ap (λ v. value_from v acc) (omega (arith, h))
value_from-digits_from (suc fuel) n acc h = elim (Bool-cases (n == 0)) [
  | inl e ↦ rw e (ap (λ v. value_from v acc) (ground (arith, e)))
  | inr e ↦
      let q = div-add-mod n 10 in
      let some_left : 0 < n = ground (arith, e) in
      let le : n / 10 ≤ fuel = omega (arith, q, h, some_left) in
      rw e (
        value_from-digits_from fuel (n / 10) ((b'0' + n % 10) ∷ acc) le
        ∙ ap (λ v. value_from v acc) (omega (arith, q)))
]

pub value_from-decimal : (n : ℕ) → value_from 0 (decimal n) ≡ n
unfolding decimal
value_from-decimal n = elim (Bool-cases (n == 0)) [
  | inl e ↦ rw e (ground (arith, e))
  | inr e ↦ rw e (value_from-digits_from n n [] (omega arith))
]
