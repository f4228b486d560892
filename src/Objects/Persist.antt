-- ===== src/Objects/Persist.antt =====
-- What goes into the file.
use nscouter.Base.{
  leb, Bool-cases, length, take, length-take, ℕ, zero, suc, refl, inl, inr, true, List, [], arith,
  ◌≤◌, ◌≡◌, ◌⊎◌, ◌∷◌, nat_eq, list_eq,
}
use nscouter.Objects.{
  SeenObject, history_keep_max, insert_seen, sort_seen, is_recent, persistable_history, keep_seen,
  Timeline, values,
}

abbrev pub In : SeenObject → List SeenObject → Type 0
In x [] = ⊥
In x (s ∷ ss) = (s ≡ x) ⊎ In x ss

-- All were last alive at `t` or before, and at `t` or after.
abbrev pub UpTo : ℕ → List SeenObject → Type 0
UpTo t [] = Unit
UpTo t (s ∷ ss) = (s.last_alive ≤ t) × UpTo t ss

abbrev pub Since : ℕ → List SeenObject → Type 0
Since t [] = Unit
Since t (s ∷ ss) = (t ≤ s.last_alive) × Since t ss

abbrev pub NewestFirst : List SeenObject → Type 0
NewestFirst [] = Unit
NewestFirst (s ∷ ss) = UpTo s.last_alive ss × NewestFirst ss

UpTo-mono : (t u : ℕ) (ss : List SeenObject) → t ≤ u → UpTo t ss → UpTo u ss
UpTo-mono t u [] h a = tt
UpTo-mono t u (s ∷ ss) h a = (omega (arith, a.0), UpTo-mono t u ss h a.1)

UpTo-insert_seen :
    (t : ℕ) (s : SeenObject) (ss : List SeenObject)
    → s.last_alive ≤ t
    → UpTo t ss
    → UpTo t (insert_seen s ss)
unfolding insert_seen
UpTo-insert_seen t s [] h a = (h, tt)
UpTo-insert_seen t s (u ∷ us) h a = elim (Bool-cases (leb u.last_alive s.last_alive)) [
  | inl e ↦ rw e (h, a)
  | inr e ↦ rw e (a.0, UpTo-insert_seen t s us h a.1)
]

NewestFirst-insert_seen :
    (s : SeenObject) (ss : List SeenObject) → NewestFirst ss → NewestFirst (insert_seen s ss)
unfolding insert_seen
NewestFirst-insert_seen s [] n = (tt, tt)
NewestFirst-insert_seen s (u ∷ us) n = elim (Bool-cases (leb u.last_alive s.last_alive)) [
  | inl e ↦
      let le : u.last_alive ≤ s.last_alive = ground arith in
      rw e ((le, UpTo-mono u.last_alive s.last_alive us le n.0), n)
  | inr e ↦
      rw e (UpTo-insert_seen u.last_alive s us (ground arith) n.0, NewestFirst-insert_seen s us n.1)
]

NewestFirst-sort_seen : (ss : List SeenObject) → NewestFirst (sort_seen ss)
unfolding sort_seen
NewestFirst-sort_seen [] = tt
NewestFirst-sort_seen (s ∷ ss) = NewestFirst-insert_seen s (sort_seen ss) (NewestFirst-sort_seen ss)

In-insert_seen :
    (x s : SeenObject) (ss : List SeenObject) → (s ≡ x) ⊎ In x ss → In x (insert_seen s ss)
unfolding insert_seen
In-insert_seen x s [] h = h
In-insert_seen x s (u ∷ us) h = elim (Bool-cases (leb u.last_alive s.last_alive)) [
  | inl e ↦ rw e h
  | inr e ↦ rw e (elim h [
    | inl p ↦ inr (In-insert_seen x s us (inl p))
    | inr (inl p) ↦ inl p
    | inr (inr p) ↦ inr (In-insert_seen x s us (inr p))
  ])
]

In-sort_seen : (x : SeenObject) (ss : List SeenObject) → In x ss → In x (sort_seen ss)
unfolding sort_seen
In-sort_seen x [] p = elim p [ ]
In-sort_seen x (s ∷ ss) (inl p) = In-insert_seen x s (sort_seen ss) (inl p)
In-sort_seen x (s ∷ ss) (inr p) = In-insert_seen x s (sort_seen ss) (inr (In-sort_seen x ss p))

UpTo-take : (t n : ℕ) (ss : List SeenObject) → UpTo t ss → UpTo t (take n ss)
UpTo-take t zero ss a = tt
UpTo-take t (suc n) [] a = tt
UpTo-take t (suc n) (s ∷ ss) a = (a.0, UpTo-take t n ss a.1)

NewestFirst-take : (n : ℕ) (ss : List SeenObject) → NewestFirst ss → NewestFirst (take n ss)
NewestFirst-take zero ss a = tt
NewestFirst-take (suc n) [] a = tt
NewestFirst-take (suc n) (s ∷ ss) a = (UpTo-take s.last_alive n ss a.0, NewestFirst-take n ss a.1)

UpTo-In : (x : SeenObject) (t : ℕ) (ss : List SeenObject) → UpTo t ss → In x ss → x.last_alive ≤ t
UpTo-In x t [] a p = elim p [ ]
UpTo-In x t (s ∷ ss) a (inl p) = rw p at a.0
UpTo-In x t (s ∷ ss) a (inr p) = UpTo-In x t ss a.1 p

-- One that is cut off was alive no later than those that are kept.
In-take :
    (x : SeenObject) (n : ℕ) (ss : List SeenObject)
    → NewestFirst ss
    → In x ss
    → In x (take n ss) ⊎ (length (take n ss) ≡ n) × Since x.last_alive (take n ss)
In-take x zero ss a p = inr (refl, tt)
In-take x (suc n) [] a p = elim p [ ]
In-take x (suc n) (s ∷ ss) a (inl p) = inl (inl p)
In-take x (suc n) (s ∷ ss) a (inr p) = elim (In-take x n ss a.1 p) [
  | inl q ↦ inl (inr q)
  | inr (k, q) ↦ inr (omega (arith, k), (UpTo-In x s.last_alive ss a.0 p, q))
]

In-keep_seen :
    (x : SeenObject) (now : ℕ) (ss : List SeenObject)
    → is_recent now x ≡ true
    → In x ss
    → In x (keep_seen now ss)
In-keep_seen x now [] r p = elim p [ ]
In-keep_seen x now (s ∷ ss) r (inl p) = rw (p, r) (inl refl)
In-keep_seen x now (s ∷ ss) r (inr p) = elim (Bool-cases (is_recent now s)) [
  | inl e ↦ rw e (inr (In-keep_seen x now ss r p))
  | inr e ↦ rw e (In-keep_seen x now ss r p)
]

-- The file holds at most five thousand servers, the latest alive first. One that is up, or was
-- within the last seven days, is left out only when there are five thousand others in the file that
-- were alive no earlier.
pub persistable_history_lem :
    (t : Timeline) (now : ℕ) (x : SeenObject)
    → is_recent now x ≡ true
    → In x (values t.seen)
    → let file = persistable_history t now in
      NewestFirst file
      × (length file ≤ 5_000)
      × (In x file ⊎ (length file ≡ 5_000) × Since x.last_alive file)
unfolding persistable_history
persistable_history_lem t now x r p =
    let all = sort_seen (keep_seen now (values t.seen)) in
    let sorted : NewestFirst all = NewestFirst-sort_seen (keep_seen now (values t.seen)) in
    (
      NewestFirst-take history_keep_max all sorted,
      omega (arith, length-take history_keep_max all),
      In-take x history_keep_max all sorted
          (In-sort_seen x (keep_seen now (values t.seen)) (In-keep_seen x now (values t.seen) r p)),
    )
