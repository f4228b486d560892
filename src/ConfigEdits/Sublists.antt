-- ===== src/ConfigEdits/Sublists.antt =====
-- Lines that stand in a text in the same order.
use nscouter.Base.Sorts.{All}
use nscouter.ConfigEdits.{pop_blank, is_empty, append_new}
use nscouter.Base.{
  Bool-cases, refl, subst, inl, inr, Bool, true, false, List, [], arith, ◌≡◌, ◌&&◌, ◌∷◌, ◌++◌,
  ◌===◌, if◌then◌else◌, nat_eq, list_eq,
}
use nscouter.Base.Text.{Text}

-- The first list is the second without some of its elements.
pub data Sublist : List Text → List Text → Type 0 where
  done : Sublist [] []
  keep : {x : Text} {xs ys : List Text} → Sublist xs ys → Sublist (x ∷ xs) (x ∷ ys)
  skip : {y : Text} {xs ys : List Text} → Sublist xs ys → Sublist xs (y ∷ ys)

pub Sublist-append : {xs ys : List Text} (zs : List Text) → Sublist xs ys → Sublist xs (ys ++ zs)
Sublist-append [] done = done
Sublist-append (z ∷ zs) done = skip (Sublist-append zs done)
Sublist-append zs (keep p) = keep (Sublist-append zs p)
Sublist-append zs (skip p) = skip (Sublist-append zs p)

empty_is : (ls : List Text) → is_empty ls ≡ true → ls ≡ []
empty_is [] h = refl
empty_is (l ∷ ls) h = absurd (cc)

Sublist-pop_blank :
    {xs ys : List Text}
    → Sublist xs ys
    → All (λ x. (x === []) ≡ false) xs
    → Sublist xs (pop_blank ys)
unfolding pop_blank
Sublist-pop_blank done a = done
Sublist-pop_blank (keep p) a = rw (pop_blank, a.0) (keep (Sublist-pop_blank p a.1))
Sublist-pop_blank {xs = xs} (skip {y = y} {ys = ys} p) a =
    let ih = Sublist-pop_blank p a in
    elim (Bool-cases ((y === []) && is_empty (pop_blank ys))) [
      | inl c ↦
          rw (pop_blank, c) (subst (λ l. Sublist xs l) (empty_is (pop_blank ys) (ground arith)) ih)
      | inr c ↦ rw (pop_blank, c) (skip ih)
    ]

pub append_new-Sublist :
    (newline : Bool) (appended : List Text) {xs out : List Text}
    → Sublist xs out
    → All (λ x. (x === []) ≡ false) xs
    → Sublist xs (append_new newline appended out)
unfolding append_new
append_new-Sublist newline [] p a = p
append_new-Sublist newline (n ∷ appended) {out = out} p a =
    Sublist-append (if newline then [] ∷ [] else [])
      (Sublist-append (n ∷ appended) (Sublist-pop_blank p a))
