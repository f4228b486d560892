-- ===== src/Objects/Restore.antt =====
-- What a restored file adds.
use nscouter.Base.Sets.{has}
use nscouter.Base.{
  Bool-cases, length, ℕ, refl, inl, inr, true, false, Option, none, some, List, [], arith, ◌+◌, ◌≡◌,
  ◌∙◌, ◌∷◌, ◌==◌, nat_eq, list_eq,
}
use nscouter.Base.Maps.{set, get-set, get, keys}
use nscouter.Objects.{SeenObject, restore_all, restore_object_history, Timeline, to_seen}

has-keys-get :
    (m : List (ℕ × SeenObject)) (h : ℕ) (p : SeenObject) → get m h ≡ some p → has (keys m) h ≡ true
unfolding get
has-keys-get [] h p g = absurd (ground arith)
has-keys-get ((k, v) ∷ m) h p g = ground (arith, has-keys-get m h p)

restore_all-kept :
    (seen : List (ℕ × SeenObject)) (n : ℕ) (entries : List (Option SeenObject)) (h : ℕ)
    (p : SeenObject)
    → get seen h ≡ some p
    → get (restore_all seen n entries).0 h ≡ some p
unfolding restore_all
restore_all-kept seen n [] h p g = g
restore_all-kept seen n (none ∷ vs) h p g = restore_all-kept seen n vs h p g
restore_all-kept seen n (some x ∷ vs) h p g = elim (Bool-cases (has (keys seen) x.obj_hash)) [
  | inl e ↦ rw e (restore_all-kept seen n vs h p g)
  | inr e ↦
      let ne : (x.obj_hash == h) ≡ false = ground (arith, has-keys-get seen h p g) in
      rw e (
        restore_all-kept (set seen x.obj_hash (to_seen x)) (n + 1) vs h p
          (get-set seen x.obj_hash h (to_seen x) ∙ rw ne g))
]

length-set-new :
    (m : List (ℕ × SeenObject)) (k : ℕ) (v : SeenObject)
    → has (keys m) k ≡ false
    → length (set m k v) ≡ length m + 1
unfolding set
length-set-new [] k v h = refl
length-set-new ((j, w) ∷ m) k v h = ground (arith, length-set-new m k v)

restore_all-count :
    (seen : List (ℕ × SeenObject)) (n : ℕ) (entries : List (Option SeenObject))
    → length (restore_all seen n entries).0 + n ≡ length seen + (restore_all seen n entries).1
unfolding restore_all
restore_all-count seen n [] = refl
restore_all-count seen n (none ∷ vs) = restore_all-count seen n vs
restore_all-count seen n (some x ∷ vs) = elim (Bool-cases (has (keys seen) x.obj_hash)) [
  | inl e ↦ rw e (restore_all-count seen n vs)
  | inr e ↦
      let r = restore_all-count (set seen x.obj_hash (to_seen x)) (n + 1) vs in
      rw e (omega (arith, r, length-set-new seen x.obj_hash (to_seen x) e))
]

-- A restored file changes nothing of a server that was seen already, and the number that comes back
-- counts the servers that it added.
pub restore_object_history-kept :
    (t : Timeline) (entries : List (Option SeenObject)) (h : ℕ) (p : SeenObject)
    → get t.seen h ≡ some p
    → (get (restore_object_history t entries).0.seen h ≡ some p)
      × (length (restore_object_history t entries).0.seen
          ≡ length t.seen + (restore_object_history t entries).1)
unfolding restore_object_history
restore_object_history-kept t entries h p g =
    (restore_all-kept t.seen 0 entries h p g, omega (arith, restore_all-count t.seen 0 entries))
