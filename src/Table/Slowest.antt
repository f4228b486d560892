-- ===== src/Table/Slowest.antt =====
-- Which rows the table lists.
use nscouter.Base.Sorts.{
  sort_down, Downward, total, total-sort_down, Downward-sort_down, total-append,
}
use nscouter.Base.Text.{Text}
use nscouter.Table.{pick_table_rows, SXlog, base_rows, has, hit_rows}
use nscouter.Base.{
  Bool-cases, length, take, drop, take-append-drop, length-take, ℕ, min, refl, sym, ap, inl, inr,
  Option, none, some, List, [], arith, ◌+◌, ◌*◌, ◌≡◌, ◌∙◌, ◌∷◌, ◌++◌, ◌===◌, if◌then◌else◌, nat_eq,
  list_eq,
}

length-total : (xs : List SXlog) → total (λ x. 1) xs ≡ length xs
length-total [] = refl
length-total (x ∷ xs) = omega (arith, length-total xs)

-- Once for a row that the search leaves, and not at all for another: all where nothing is searched
-- for, and otherwise those whose transaction was hit.
abbrev pub left_by : Option (List Text) → SXlog → ℕ
left_by none x = 1
left_by (some []) x = 0
left_by (some (t ∷ hits)) x = if t === x.txid then 1 else left_by (some hits) x

left_by-has :
    (hits : List Text) (x : SXlog) → left_by (some hits) x ≡ (if has hits x.txid then 1 else 0)
left_by-has [] x = refl
left_by-has (t ∷ hits) x = ground (arith, left_by-has hits x)

total-hit_rows :
    (hits : List Text) (f : SXlog → ℕ) (xs : List SXlog)
    → total f (hit_rows hits xs) ≡ total (λ x. left_by (some hits) x * f x) xs
total-hit_rows hits f [] = refl
total-hit_rows hits f (x ∷ xs) = elim (Bool-cases (has hits x.txid)) [
  | inl e ↦ rw (e, left_by-has hits x, e) (omega (arith, total-hit_rows hits f xs))
  | inr e ↦ rw (e, left_by-has hits x, e) (omega (arith, total-hit_rows hits f xs))
]

total-all : (f : SXlog → ℕ) (xs : List SXlog) → total f xs ≡ total (λ x. 1 * f x) xs
total-all f [] = refl
total-all f (x ∷ xs) = omega (arith, total-all f xs)

total-base_rows :
    (xlogs : List SXlog) (hits : Option (List Text)) (f : SXlog → ℕ)
    → total f (base_rows xlogs hits) ≡ total (λ x. left_by hits x * f x) xlogs
total-base_rows xlogs none f = total-all f xlogs
total-base_rows xlogs (some hits) f = total-hit_rows hits f xlogs

-- Whatever is searched for: as many rows are counted as the search leaves, the table lists as many of
-- them as the limit allows, the slowest first, and the rows listed and those left out are together
-- the rows that the search leaves, of which none left out is slower than one listed.
pub pick_table_rows-Slowest :
    (xlogs : List SXlog) (hits : Option (List Text)) (limit : ℕ)
    → let r = pick_table_rows xlogs hits limit in
      (rest : List SXlog) × (r.matched ≡ total (λ x. left_by hits x * 1) xlogs)
      × (length r.rows ≡ min limit r.matched)
      × Downward (λ x. x.elapsed) (r.rows ++ rest)
      × ((f : SXlog → ℕ) → total f r.rows + total f rest ≡ total (λ x. left_by hits x * f x) xlogs)
unfolding pick_table_rows
pick_table_rows-Slowest xlogs hits limit =
    let base = base_rows xlogs hits in
    let sorted = sort_down (λ x. x.elapsed) base in
    let whole = take-append-drop limit sorted in
    (
      drop limit sorted,
      sym (length-total base) ∙ total-base_rows xlogs hits (λ x. 1),
      omega (
        arith,
        length-take limit sorted,
        length-total sorted,
        length-total base,
        total-sort_down (λ x. x.elapsed) (λ x. 1) base,
      ),
      rw whole (Downward-sort_down (λ x. x.elapsed) base),
      λ f.
          sym (total-append f (take limit sorted) (drop limit sorted))
          ∙ ap (λ l. total f l) whole
          ∙ total-sort_down (λ x. x.elapsed) f base
          ∙ total-base_rows xlogs hits f,
    )
