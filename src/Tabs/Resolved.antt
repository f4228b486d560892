-- ===== src/Tabs/Resolved.antt =====
-- `setResolved`: skipping an update whose hashes are the same ones loses none.
use nscouter.Base.{
  Bool-cases, length, ℕ, refl, inl, inr, true, false, some, List, [], arith, ◌≡◌, ◌≢◌, ◌∷◌, ◌==◌,
  nat_eq, list_eq,
}
use nscouter.Base.Sets.{
  has, delete, Distinct, has-delete, has-add_all, Distinct-delete, length-delete,
}
use nscouter.Tabs.{
  XlogTab, XlogTabsState, find_tab, update_tab, all_has, same_set, with_hashes, set_resolved,
}

all_has-has : (a b : List ℕ) (h : ℕ) → all_has b a ≡ true → has a h ≡ true → has b h ≡ true
all_has-has [] b h e m = absurd (cc)
all_has-has (v ∷ a) b h e m = ground (arith, all_has-has a b h)

all_has-delete :
    (a b : List ℕ) (v : ℕ) → has a v ≡ false → all_has b a ≡ true → all_has (delete b v) a ≡ true
all_has-delete [] b v h e = refl
all_has-delete (w ∷ a) b v h e = ground (arith, all_has-delete a b v, has-delete b v w)

-- Two sets of one size, one inside the other, are the same.
same_size :
    (a b : List ℕ) (h : ℕ)
    → Distinct a
    → Distinct b
    → length a ≡ length b
    → all_has b a ≡ true
    → has a h ≡ has b h
same_size [] [] h d f l e = refl
same_size [] (w ∷ b) h d f l e = absurd (omega arith)
same_size (v ∷ a) b h d f l e =
    let m : has b v ≡ true = ground arith in
    ground (
      arith,
      same_size a (delete b v) h d.1 (Distinct-delete b v f),
      length-delete b v f m,
      all_has-delete a b v d.0,
      has-delete b v h,
    )

pub same_set_sound :
    (a b : List ℕ) (h : ℕ) → Distinct a → Distinct b → same_set a b ≡ true → has a h ≡ has b h
unfolding same_set
same_set_sound a b h d f e = same_size a b h d f (ground arith) (ground arith)

find_tab-update_tab :
    (ts : List XlogTab) (key : ℕ) (f : XlogTab → XlogTab) (t : XlogTab)
    → ((u : XlogTab) → (f u).key ≡ u.key)
    → find_tab ts key ≡ some t
    → find_tab (update_tab ts key f) key ≡ some (f t)
find_tab-update_tab [] key f t same h = cc
find_tab-update_tab (u ∷ ts) key f t same h = elim (Bool-cases (u.key == key)) [
  | inl e ↦ ground (arith, same u)
  | inr e ↦ ground (arith, same u, find_tab-update_tab ts key f t same)
]

find_tab-update_other :
    (ts : List XlogTab) (key other : ℕ) (f : XlogTab → XlogTab)
    → ((u : XlogTab) → (f u).key ≡ u.key)
    → key ≢ other
    → find_tab (update_tab ts key f) other ≡ find_tab ts other
find_tab-update_other [] key other f same h = refl
find_tab-update_other (u ∷ ts) key other f same h =
    ground (arith, same u, find_tab-update_other ts key other f same h)

-- After `setResolved` the tab queries exactly the given hashes, also where the update is skipped,
-- and every other tab is as it was.
pub set_resolved-find_tab :
    (s : XlogTabsState) (key : ℕ) (hashes : List ℕ) (t : XlogTab)
    → find_tab s.tabs key ≡ some t
    → Distinct t.filter.obj_hash_set
    → Distinct hashes
    → (u : XlogTab) × (find_tab (set_resolved s key hashes).tabs key ≡ some u)
      × ((h : ℕ) → has u.filter.obj_hash_set h ≡ has hashes h)
      × ((other : ℕ)
          → key ≢ other
          → find_tab (set_resolved s key hashes).tabs other ≡ find_tab s.tabs other)
unfolding set_resolved
set_resolved-find_tab s key hashes t e d f =
    elim (Bool-cases (same_set t.filter.obj_hash_set hashes)) [
      | inl same ↦
          rw (e, set_resolved, same)
            (t, e, λ h. same_set_sound t.filter.obj_hash_set hashes h d f same, λ other ne. refl)
      | inr new ↦
          rw (e, set_resolved, new)
            (
              with_hashes hashes t,
              find_tab-update_tab s.tabs key _ t (λ u. refl) e,
              λ h. has-add_all [] hashes h,
              λ other ne. find_tab-update_other s.tabs key other _ (λ u. refl) ne,
            )
    ]
