-- ===== src/Search/Held.antt =====
-- Which piece is with which worker.
use nscouter.Search.Workers.{WideWorker, asks, fetches, returned}
use nscouter.Base.{
  ltb, length, get_elem?, replicate, ℕ, zero, suc, refl, ap, Bool, true, false, some, List, [],
  arith, ◌+◌, ◌≤◌, ◌<◌, ◌≡◌, ◌&&◌, ◌||◌, ◌∷◌, ◌++◌, ◌==◌, if◌then◌else◌, nat_eq, list_eq, set,
}

abbrev pub holds : WideWorker → ℕ → ℕ
holds (asks k) i = if k == i then 1 else 0
holds (fetches k hashes cursor) i = if k == i then 1 else 0
holds returned i = 0

-- How many workers have piece `i`.
abbrev pub held : List WideWorker → ℕ → ℕ
held [] i = 0
held (w ∷ ws) i = holds w i + held ws i

abbrev pub done_at : List Bool → ℕ → ℕ
done_at [] i = 0
done_at (b ∷ fs) zero = if b then 1 else 0
done_at (b ∷ fs) (suc i) = done_at fs i

abbrev pub below : ℕ → ℕ → ℕ
below i next = if ltb i next then 1 else 0

abbrev pub has_returned : WideWorker → Bool
has_returned returned = true
has_returned (asks k) = false
has_returned (fetches k hashes cursor) = false

abbrev pub any_returned : List WideWorker → Bool
any_returned [] = false
any_returned (w ∷ ws) = has_returned w || any_returned ws

abbrev pub all_returned : List WideWorker → Bool
all_returned [] = true
all_returned (w ∷ ws) = has_returned w && all_returned ws

pub held-set :
    (ws : List WideWorker) (j i : ℕ) (w v : WideWorker)
    → get_elem? ws j ≡ some w
    → held (set ws j v) i + holds w i ≡ held ws i + holds v i
held-set [] j i w v h = absurd (cc)
held-set (u ∷ ws) zero i w v h = let e : u ≡ w = cc in omega (arith, ap (λ x. holds x i) e)
held-set (u ∷ ws) (suc j) i w v h = omega (arith, held-set ws j i w v h)

pub held-append :
    (ws : List WideWorker) (w : WideWorker) (i : ℕ) → held (ws ++ w ∷ []) i ≡ held ws i + holds w i
held-append [] w i = omega arith
held-append (u ∷ ws) w i = omega (arith, held-append ws w i)

pub any_returned-append :
    (ws : List WideWorker) (w : WideWorker)
    → any_returned (ws ++ w ∷ []) ≡ (any_returned ws || has_returned w)
any_returned-append [] w = ground arith
any_returned-append (u ∷ ws) w = ground (arith, any_returned-append ws w)

pub any_returned-set :
    (ws : List WideWorker) (j : ℕ) (v : WideWorker)
    → any_returned (set ws j v) ≡ true
    → (any_returned ws || has_returned v) ≡ true
any_returned-set [] j v h = absurd (cc)
any_returned-set (u ∷ ws) zero v h = ground (arith, h)
any_returned-set (u ∷ ws) (suc j) v h = ground (arith, h, any_returned-set ws j v)

pub held_none : (ws : List WideWorker) (i : ℕ) → all_returned ws ≡ true → held ws i ≡ 0
held_none [] i h = refl
held_none (returned ∷ ws) i h = omega (arith, held_none ws i h)
held_none (asks k ∷ ws) i h = absurd (cc)
held_none (fetches k hs c ∷ ws) i h = absurd (cc)

pub done_at-set :
    (fs : List Bool) (k i : ℕ)
    → k < length fs
    → done_at (set fs k true) i ≡ (if k == i then 1 else done_at fs i)
done_at-set [] k i h = absurd (omega arith)
done_at-set (b ∷ fs) zero zero h = refl
done_at-set (b ∷ fs) zero (suc i) h = ground arith
done_at-set (b ∷ fs) (suc k) zero h = ground arith
done_at-set (b ∷ fs) (suc k) (suc i) h = ground (arith, done_at-set fs k i)

pub done_at-replicate : (n i : ℕ) → done_at (replicate n false) i ≡ 0
done_at-replicate zero i = refl
done_at-replicate (suc n) zero = refl
done_at-replicate (suc n) (suc i) = done_at-replicate n i

pub held-ge :
    (ws : List WideWorker) (j i : ℕ) (w : WideWorker)
    → get_elem? ws j ≡ some w
    → holds w i ≤ held ws i
held-ge [] j i w h = absurd (cc)
held-ge (u ∷ ws) zero i w h = let e : u ≡ w = cc in omega (arith, ap (λ x. holds x i) e)
held-ge (u ∷ ws) (suc j) i w h = omega (arith, held-ge ws j i w h)
