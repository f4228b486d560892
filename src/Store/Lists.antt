-- ===== src/Store/Lists.antt =====
-- Lists of transactions in the order of their end times.
use nscouter.Base.{
  length, drop, length-drop, ℕ, zero, suc, refl, false, List, [], arith, ◌+◌, ◌-◌, ◌≤◌, ◌≡◌, ◌∷◌,
  ◌++◌,
}
use nscouter.Xlog.{SXlog}
use nscouter.Store.{some_old, keep_recent, skip_old}

-- Every item ended at `t` or later.
abbrev pub From : ℕ → List SXlog → Type 0
From t [] = Unit
From t (x ∷ xs) = (t ≤ x.end_time) × From t xs

-- Every item ended at `t` or earlier.
abbrev pub Until : ℕ → List SXlog → Type 0
Until t [] = Unit
Until t (x ∷ xs) = (x.end_time ≤ t) × Until t xs

abbrev pub Sorted : List SXlog → Type 0
Sorted [] = Unit
Sorted (x ∷ xs) = From x.end_time xs × Sorted xs

-- The last `n` of a list: the newest, where it is in time order.
abbrev pub last_n : ℕ → List SXlog → List SXlog
last_n n xs = drop (length xs - n) xs

pub length-last_n-le : (n : ℕ) (xs : List SXlog) → length (last_n n xs) ≤ n
length-last_n-le n xs = omega (arith, length-drop (length xs - n) xs)

From-mono : {s t : ℕ} (xs : List SXlog) → s ≤ t → From t xs → From s xs
From-mono [] h f = tt
From-mono (x ∷ xs) h f = (omega arith, From-mono xs h f.1)

From-append : (t : ℕ) (xs ys : List SXlog) → From t xs → From t ys → From t (xs ++ ys)
From-append t [] ys f g = g
From-append t (x ∷ xs) ys f g = (f.0, From-append t xs ys f.1 g)

pub Sorted-append :
    (t : ℕ) (xs ys : List SXlog)
    → Sorted xs
    → Until t xs
    → Sorted ys
    → From t ys
    → Sorted (xs ++ ys)
Sorted-append t [] ys s u r f = r
Sorted-append t (x ∷ xs) ys s u r f =
    (From-append x.end_time xs ys s.0 (From-mono ys u.0 f), Sorted-append t xs ys s.1 u.1 r f)

From-keep_recent :
    (t now range : ℕ) (xs : List SXlog) → From t xs → From t (keep_recent now range xs)
From-keep_recent t now range [] f = tt
From-keep_recent t now range (x ∷ xs) f = ground (arith, From-keep_recent t now range xs f.1)

pub Sorted-keep_recent :
    (now range : ℕ) (xs : List SXlog) → Sorted xs → Sorted (keep_recent now range xs)
Sorted-keep_recent now range [] s = tt
Sorted-keep_recent now range (x ∷ xs) s =
    ground
      (arith, Sorted-keep_recent now range xs s.1, From-keep_recent x.end_time now range xs s.0)

pub Sorted-drop : (n : ℕ) (xs : List SXlog) → Sorted xs → Sorted (drop n xs)
Sorted-drop zero xs s = s
Sorted-drop (suc n) [] s = tt
Sorted-drop (suc n) (x ∷ xs) s = Sorted-drop n xs s.1

pub keep_recent_of_none_old :
    (now range : ℕ) (xs : List SXlog)
    → some_old now range xs ≡ false
    → keep_recent now range xs ≡ xs
keep_recent_of_none_old now range [] h = refl
keep_recent_of_none_old now range (x ∷ xs) h = ground (arith, keep_recent_of_none_old now range xs)

keep_recent_of_From :
    (t now range : ℕ) (xs : List SXlog)
    → now ≤ t + range
    → From t xs
    → keep_recent now range xs ≡ xs
keep_recent_of_From t now range [] h f = refl
keep_recent_of_From t now range (x ∷ xs) h f =
    ground (arith, keep_recent_of_From t now range xs h f.1)

pub skip_old-eq-keep_recent :
    (now range : ℕ) (xs : List SXlog) → Sorted xs → skip_old now range xs ≡ keep_recent now range xs
unfolding skip_old
skip_old-eq-keep_recent now range [] s = refl
skip_old-eq-keep_recent now range (x ∷ xs) s = ground (
  arith,
  skip_old-eq-keep_recent now range xs s.1,
  keep_recent_of_From x.end_time now range xs,
  s.0,
)
