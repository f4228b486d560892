-- ===== src/Alerts/Bursts.antt =====
-- What a burst says of its alerts.
use nscouter.Base.Sets.{add_all, has, length-le, Distinct-add_all, has-add_all}
use nscouter.Alerts.{AlertPack, cut_runs, last_time, hashes_of, filter_alerts}
use mathlib.Core.List.{reverse_aux}
use nscouter.Base.{
  ltb, Bool-cases, length, ℕ, refl, sym, inl, inr, Bool, true, false, List, [], arith, ◌+◌, ◌≤◌,
  ◌≡◌, ◌∙◌, ◌∷◌, ◌++◌, nat_eq, list_eq,
}
use nscouter.Base.Sorts.{All, Upward, All-append}

-- From the earliest on, each alert follows the one before it within the gap.
abbrev pub Close : ℕ → List AlertPack → Type 0
Close gap [] = Unit
Close gap (a ∷ []) = Unit
Close gap (a ∷ b ∷ rest) = (a.time ≤ b.time) × (b.time ≤ a.time + gap) × Close gap (b ∷ rest)

pub After : ℕ → List AlertPack → Type 0
After t [] = Unit
After t (a ∷ rest) = t ≤ a.time

Close-snoc :
    (gap : ℕ) (c : AlertPack) (cur : List AlertPack) (a : AlertPack)
    → Close gap (c ∷ cur)
    → last_time (c ∷ cur) ≤ a.time
    → a.time ≤ last_time (c ∷ cur) + gap
    → Close gap ((c ∷ cur) ++ a ∷ [])
Close-snoc gap c [] a h l u = (l, u, tt)
Close-snoc gap c (d ∷ cur) a h l u = (h.0, h.1, Close-snoc gap d cur a h.2 l u)

last_time-snoc :
    (c : AlertPack) (cur : List AlertPack) (a : AlertPack)
    → last_time ((c ∷ cur) ++ a ∷ []) ≡ a.time
last_time-snoc c [] a = refl
last_time-snoc c (d ∷ cur) a = last_time-snoc d cur a

-- A run that `flush` is called with.
pub record Run (P : AlertPack → Type 0) (gap : ℕ) (run : List AlertPack) : Type 0 where
  pub first : AlertPack
  pub others : List AlertPack
  pub is : run ≡ first ∷ others
  pub close : Close gap run
  pub all : All P run

After-tail :
    (a : AlertPack) (rest : List AlertPack) → Upward (λ x. x.time) (a ∷ rest) → After a.time rest
unfolding After
After-tail a [] u = tt
After-tail a (b ∷ rest) u = u.0

Upward-tail :
    (a : AlertPack) (rest : List AlertPack)
    → Upward (λ x. x.time) (a ∷ rest)
    → Upward (λ x. x.time) rest
Upward-tail a [] u = tt
Upward-tail a (b ∷ rest) u = u.1

pub cut_runs-Run :
    (P : AlertPack → Type 0) (gap : ℕ) (cur rest : List AlertPack)
    → Close gap cur
    → All P cur
    → After (last_time cur) rest
    → Upward (λ x. x.time) rest
    → All P rest
    → All (Run P gap) (cut_runs gap cur rest)
unfolding cut_runs After
cut_runs-Run P gap [] [] k p f u q = tt
cut_runs-Run P gap (c ∷ cur) [] k p f u q =
    (record { first = c; others = cur; is = refl; close = k; all = p }, tt)
cut_runs-Run P gap [] (a ∷ rest) k p f u q =
    cut_runs-Run P gap (a ∷ []) rest tt (q.0, tt) (After-tail a rest u) (Upward-tail a rest u) q.1
cut_runs-Run P gap (c ∷ cur) (a ∷ rest) k p f u q =
    elim (Bool-cases (ltb (last_time (c ∷ cur) + gap) a.time)) [
      | inl e ↦
          rw (cut_runs, e)
            (
              record { first = c; others = cur; is = refl; close = k; all = p },
              cut_runs-Run P gap (a ∷ []) rest tt (q.0, tt) (After-tail a rest u)
                  (Upward-tail a rest u) q.1,
            )
      | inr e ↦
          rw (cut_runs, e)
            (cut_runs-Run P gap ((c ∷ cur) ++ a ∷ []) rest
              (Close-snoc gap c cur a k f (ground arith))
              (All-append P (c ∷ cur) (a ∷ []) p (q.0, tt))
              (rw (last_time-snoc c cur a) (After-tail a rest u)) (Upward-tail a rest u) q.1)
    ]

pub All-reverse_aux :
    (P : AlertPack → Type 0) (xs ys : List AlertPack)
    → All P xs
    → All P ys
    → All P (reverse_aux xs ys)
All-reverse_aux P [] ys a b = b
All-reverse_aux P (x ∷ xs) ys a b = All-reverse_aux P xs (x ∷ ys) a.1 (a.0, b)

has-filter :
    (p q : AlertPack → Bool) (h : ℕ) (xs : List AlertPack)
    → ((a : AlertPack) → p a ≡ true → q a ≡ true)
    → has (hashes_of (filter_alerts p xs)) h ≡ true
    → has (hashes_of (filter_alerts q xs)) h ≡ true
has-filter p q h [] imp e = e
has-filter p q h (a ∷ xs) imp e = ground (arith, has-filter p q h xs imp, imp a)

-- A subset of the alerts has no more servers.
pub filter_le :
    (p q : AlertPack → Bool) (xs : List AlertPack)
    → ((a : AlertPack) → p a ≡ true → q a ≡ true)
    → length (add_all [] (hashes_of (filter_alerts p xs)))
      ≤ length (add_all [] (hashes_of (filter_alerts q xs)))
filter_le p q xs imp =
    let ps = hashes_of (filter_alerts p xs) in
    let qs = hashes_of (filter_alerts q xs) in
    length-le (add_all [] ps) (add_all [] qs) (Distinct-add_all [] ps tt)
      (λ h e. has-add_all [] qs h ∙ has-filter p q h xs imp (sym (has-add_all [] ps h) ∙ e))

empty_has : (ys : List ℕ) (h : ℕ) → length ys ≡ 0 → has ys h ≡ false
empty_has [] h z = refl
empty_has (y ∷ ys) h z = absurd (cc)

-- Where no server is counted, no alert passed.
pub filter_none :
    (p : AlertPack → Bool) (xs : List AlertPack)
    → length (add_all [] (hashes_of (filter_alerts p xs))) ≡ 0
    → All (λ a. p a ≡ false) xs
filter_none p [] z = tt
filter_none p (a ∷ xs) z = elim (Bool-cases (p a)) [
  | inl e ↦
      let found = has-add_all [] (hashes_of (filter_alerts p (a ∷ xs))) a.obj_hash in
      let none_found = empty_has (add_all [] (hashes_of (filter_alerts p (a ∷ xs)))) a.obj_hash z in
      absurd (ground (arith, e))
  | inr e ↦ (e, filter_none p xs (rw e at z))
]

pub length-reverse_aux :
    (xs ys : List AlertPack) → length (reverse_aux xs ys) ≡ length xs + length ys
length-reverse_aux [] ys = omega arith
length-reverse_aux (x ∷ xs) ys = omega (arith, length-reverse_aux xs (x ∷ ys))

pub After-zero : (xs : List AlertPack) → After 0 xs
unfolding After
After-zero [] = tt
After-zero (x ∷ xs) = omega arith
