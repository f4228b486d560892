-- ===== src/Tabs/Keys.antt =====
-- The keys of a row of tabs under the operations on tabs.
use nscouter.Base.{
  length, ℕ, zero, suc, refl, ap, false, List, [], arith, ◌+◌, ◌≤◌, ◌<◌, ◌≡◌, ◌∷◌, ◌++◌, nat_eq,
  list_eq,
}
use nscouter.Base.Sets.{has, delete, Distinct, has-append}
use nscouter.Base.Arrays.{insert_at}
use nscouter.Tabs.{XlogTab, tab_keys, remove_tab, update_tab, with_keys, cleared}

-- Every key was made from a number up to `n`.
abbrev pub UpTo : ℕ → List ℕ → Type 0
UpTo n [] = Unit
UpTo n (k ∷ ks) = (k ≤ n) × UpTo n ks

pub UpTo-has : (n : ℕ) (ks : List ℕ) (k : ℕ) → UpTo n ks → n < k → has ks k ≡ false
UpTo-has n [] k u h = refl
UpTo-has n (j ∷ ks) k u h = ground (arith, UpTo-has n ks k u.1 h)

pub UpTo-mono : {m n : ℕ} (ks : List ℕ) → m ≤ n → UpTo m ks → UpTo n ks
UpTo-mono [] h u = tt
UpTo-mono (k ∷ ks) h u = (omega arith, UpTo-mono ks h u.1)

pub UpTo-append : (n : ℕ) (ks js : List ℕ) → UpTo n ks → UpTo n js → UpTo n (ks ++ js)
UpTo-append n [] js u v = v
UpTo-append n (k ∷ ks) js u v = (u.0, UpTo-append n ks js u.1 v)

pub UpTo-insert_at : (n i k : ℕ) (ks : List ℕ) → UpTo n ks → k ≤ n → UpTo n (insert_at i k ks)
UpTo-insert_at n zero k ks u h = (h, u)
UpTo-insert_at n (suc i) k [] u h = (h, tt)
UpTo-insert_at n (suc i) k (j ∷ ks) u h = (u.0, UpTo-insert_at n i k ks u.1 h)

pub UpTo-delete : (n k : ℕ) (ks : List ℕ) → UpTo n ks → UpTo n (delete ks k)
UpTo-delete n k [] u = tt
UpTo-delete n k (j ∷ ks) u = ground (arith, UpTo-delete n k ks u.1)

pub tab_keys-remove_tab :
    (ts : List XlogTab) (k : ℕ) → tab_keys (remove_tab ts k) ≡ delete (tab_keys ts) k
tab_keys-remove_tab [] k = refl
tab_keys-remove_tab (t ∷ ts) k = ground (arith, tab_keys-remove_tab ts k)

pub tab_keys-update_tab :
    (ts : List XlogTab) (k : ℕ) (f : XlogTab → XlogTab)
    → ((t : XlogTab) → (f t).key ≡ t.key)
    → tab_keys (update_tab ts k f) ≡ tab_keys ts
tab_keys-update_tab [] k f h = refl
tab_keys-update_tab (t ∷ ts) k f h = ground (arith, h t, tab_keys-update_tab ts k f h)

pub tab_keys-insert_at :
    (i : ℕ) (t : XlogTab) (ts : List XlogTab)
    → tab_keys (insert_at i t ts) ≡ insert_at i t.key (tab_keys ts)
tab_keys-insert_at zero t ts = refl
tab_keys-insert_at (suc i) t [] = refl
tab_keys-insert_at (suc i) t (u ∷ ts) = ap (λ ks. u.key ∷ ks) (tab_keys-insert_at i t ts)

pub tab_keys-append : (ts us : List XlogTab) → tab_keys (ts ++ us) ≡ tab_keys ts ++ tab_keys us
tab_keys-append [] us = refl
tab_keys-append (t ∷ ts) us = ap (λ ks. t.key ∷ ks) (tab_keys-append ts us)

pub tab_keys-cleared : (ts : List XlogTab) → tab_keys (cleared ts) ≡ tab_keys ts
tab_keys-cleared [] = refl
tab_keys-cleared (t ∷ ts) = ap (λ ks. t.key ∷ ks) (tab_keys-cleared ts)

pub length-tab_keys : (ts : List XlogTab) → length (tab_keys ts) ≡ length ts
length-tab_keys [] = refl
length-tab_keys (t ∷ ts) = ap suc (length-tab_keys ts)

-- Keys made from a counter are new, and none is made twice.
with_keys-above : (n k : ℕ) (ts : List XlogTab) → k ≤ n → has (tab_keys (with_keys n ts)) k ≡ false
with_keys-above n k [] h = refl
with_keys-above n k (t ∷ ts) h = ground (arith, with_keys-above (suc n) k ts)

Distinct-with_keys : (n : ℕ) (ts : List XlogTab) → Distinct (tab_keys (with_keys n ts))
Distinct-with_keys n [] = tt
Distinct-with_keys n (t ∷ ts) =
    (with_keys-above (suc n) (suc n) ts (omega arith), Distinct-with_keys (suc n) ts)

pub UpTo-with_keys : (n : ℕ) (ts : List XlogTab) → UpTo (n + length ts) (tab_keys (with_keys n ts))
UpTo-with_keys n [] = tt
UpTo-with_keys n (t ∷ ts) = (
  omega arith,
  UpTo-mono (tab_keys (with_keys (suc n) ts)) (omega arith) (UpTo-with_keys (suc n) ts),
)

pub Distinct-import :
    (n : ℕ) (ks : List ℕ) (ts : List XlogTab)
    → Distinct ks
    → UpTo n ks
    → Distinct (ks ++ tab_keys (with_keys n ts))
Distinct-import n [] ts d u = Distinct-with_keys n ts
Distinct-import n (k ∷ ks) ts d u = ground (
  arith,
  has-append ks (tab_keys (with_keys n ts)) k,
  with_keys-above n k ts u.0,
  Distinct-import n ks ts d.1 u.1,
)
