-- ===== src/PastLoad/Ends.antt =====
-- The load comes to an end.
use nscouter.PastLoad.Pages.{
  Run, requests_out, txids, Sound, stop, rows_of, answers, answer-counts, aborts, answer-Sound,
  turn-counts, arrive_cases, txids-append, arrive-counts, start_from-Sound, same_Sound,
  requests_out-append, take_rows-eq-add_all,
}
use nscouter.Base.{
  ltb, Bool-cases, length, ℕ, refl, sym, ap, inl, inr, Bool, true, false, Option, none, some, List,
  [], append-nil, append_assoc, arith, ◌+◌, ◌≤◌, ◌≡◌, ◌∙◌, ◌&&◌, ◌||◌, ◌∷◌, ◌++◌, if◌then◌else◌,
  nat_eq, list_eq,
}
use nscouter.Base.Sets.{add, add_all, Distinct, has}
use nscouter.Base.Text.{Text}
use nscouter.PastLoad.{
  PastCursor, Page, Load, answer, start, start_from, max_pages, arrive, turn, show_page, no_load,
  finish, XlogPack, take_rows,
}

pub Run-Sound : {t s : Load} {rs : List (Option Page)} → Run t s rs → Sound s → Sound t
Run-Sound (stop e) v = rw (sym e) v
Run-Sound (answers {s = s} i c a h r) v = Run-Sound r (answer-Sound s i c a v)
Run-Sound (aborts {s = s} r) v = Run-Sound r (same_Sound s _ refl refl refl refl refl v)

Run-counts :
    {t s : Load} {rs : List (Option Page)}
    → Run t s rs
    → length rs + requests_out t.workers + s.pages ≡ requests_out s.workers + t.pages
Run-counts (stop e) = rw e (omega arith)
Run-counts (answers {s = s} i c a h r) =
    let now = answer-counts s i c a h in omega (arith, now, Run-counts r)
Run-counts (aborts r) = Run-counts r

pub start_from-counts :
    (s : Load) (slices : List (ℕ × ℕ))
    → requests_out (start_from s slices).workers + s.pages
      ≡ requests_out s.workers + (start_from s slices).pages
unfolding start_from
start_from-counts s [] = omega arith
start_from-counts s (slice ∷ rest) =
    let (n, w, _, _) = turn-counts s none in
    let s1 : Load = record ((turn s none).0) {
      workers = (turn s none).0.workers ++ (turn s none).1 ∷ [];
    } in
    let k = requests_out-append (turn s none).0.workers (turn s none).1 in
    omega (arith, n, ap requests_out w, k, start_from-counts s1 rest)

pub add_all-append :
    (seen xs ys : List Text) → add_all seen (xs ++ ys) ≡ add_all (add_all seen xs) ys
unfolding add_all
add_all-append seen [] ys = refl
add_all-append seen (x ∷ xs) ys = add_all-append (add seen x) xs ys

arrive-seen :
    (s : Load) (c : Option PastCursor) (p : Page)
    → s.aborted ≡ false
    → (arrive s c p).0.seen ≡ add_all s.seen (txids p.xlogs)
arrive-seen s c p h = elim (arrive_cases s c p) [
  | inl (_, a) ↦ absurd (cc)
  | inr (inl (e, _)) ↦ rw e (take_rows-eq-add_all s.seen p.xlogs)
  | inr (inr (e, _)) ↦
      let (_, _, _, same) = turn-counts (show_page s p) (some p.cursor) in
      rw e (same ∙ take_rows-eq-add_all s.seen p.xlogs)
]

-- An answer adds its rows to what was seen, and breaks nothing off.
answer-seen :
    (s : Load) (i : ℕ) (c : Option PastCursor) (a : Option Page) (rs : List (Option Page))
    → s.aborted ≡ false
    → add_all (answer s i c a).seen (txids (rows_of rs)) ≡ add_all s.seen (txids (rows_of (a ∷ rs)))
unfolding answer
answer-seen s i c none rs h = refl
answer-seen s i c (some p) rs h =
    rw
      (
        txids-append p.xlogs (rows_of rs),
        add_all-append s.seen (txids p.xlogs) (txids (rows_of rs)),
      )
      (ap (λ l. add_all l (txids (rows_of rs))) (arrive-seen s c p h))

answer-aborted :
    (s : Load) (i : ℕ) (c : Option PastCursor) (a : Option Page)
    → (answer s i c a).aborted ≡ s.aborted
unfolding answer
answer-aborted s i c none = refl
answer-aborted s i c (some p) = let (_, _, e) = arrive-counts s c p in e

Run-aborted :
    {t s : Load} {rs : List (Option Page)} → Run t s rs → s.aborted ≡ true → t.aborted ≡ true
Run-aborted (stop e) h = rw (sym e) h
Run-aborted (answers {s = s} i c a _ r) h = Run-aborted r (answer-aborted s i c a ∙ h)
Run-aborted (aborts r) h = Run-aborted r refl

Run-seen :
    {t s : Load} {rs : List (Option Page)}
    → Run t s rs
    → t.aborted ≡ false
    → t.seen ≡ add_all s.seen (txids (rows_of rs))
unfolding add_all
Run-seen (stop e) h = rw e refl
Run-seen (answers {s = s} {rs = rs} i c a _ r) h = elim (Bool-cases s.aborted) [
  | inl e ↦ let e2 = Run-aborted r (answer-aborted s i c a ∙ e) in absurd (cc)
  | inr e ↦ Run-seen r h ∙ answer-seen s i c a rs e
]
Run-seen (aborts r) h = let e = Run-aborted r refl in absurd (cc)

start_from-seen : (s : Load) (slices : List (ℕ × ℕ)) → (start_from s slices).seen ≡ s.seen
unfolding start_from
start_from-seen s [] = refl
start_from-seen s (slice ∷ rest) =
    let (_, _, _, e) = turn-counts s none in
    start_from-seen
      (record ((turn s none).0) { workers = (turn s none).0.workers ++ (turn s none).1 ∷ [] }) rest
    ∙ e

pub no_load-Sound : Sound no_load
no_load-Sound = record {
  few = omega arith;
  cap_full = λ h. absurd (cc);
  distinct = tt;
  shown_seen = refl;
  counted = refl;
}

-- Whatever pages and errors come, in whatever order, and whenever the user breaks off: every page
-- that is counted was either answered or is still out, there are never more than `max_pages`, and no
-- transaction is shown twice. `loaded` is the number of the rows shown.
pub Run-counted :
    (slices : List (ℕ × ℕ)) (t : Load) (rs : List (Option Page))
    → Run t (start slices) rs
    → (length rs + requests_out t.workers ≡ t.pages)
      × (t.pages ≤ max_pages)
      × Distinct (txids t.shown)
      × (t.loaded ≡ length t.shown)
unfolding start
Run-counted slices t rs r =
    let v = Run-Sound r (start_from-Sound no_load slices no_load-Sound) in
    let k = start_from-counts no_load slices in
    (omega (arith, k, Run-counts r), v.few, rw v.shown_seen v.distinct, v.counted)

-- The rows, each with all its fields, but those whose transaction was seen before.
abbrev pub first_rows : List Text → List XlogPack → List XlogPack
first_rows seen [] = []
first_rows seen (x ∷ xs) =
    if has seen x.txid then first_rows seen xs else x ∷ first_rows (seen ++ x.txid ∷ []) xs

take_rows-eq-first_rows :
    (seen : List Text) (xs : List XlogPack) → (take_rows seen xs).1 ≡ first_rows seen xs
unfolding take_rows add
take_rows-eq-first_rows seen [] = refl
take_rows-eq-first_rows seen (x ∷ xs) = elim (Bool-cases (has seen x.txid)) [
  | inl e ↦ rw (take_rows, e) (take_rows-eq-first_rows seen xs)
  | inr e ↦
      rw (take_rows, e, add, e) (ap (λ l. x ∷ l) (take_rows-eq-first_rows (seen ++ x.txid ∷ []) xs))
]

first_rows-append :
    (seen : List Text) (xs ys : List XlogPack)
    → first_rows seen (xs ++ ys) ≡ first_rows seen xs ++ first_rows (add_all seen (txids xs)) ys
unfolding add_all add
first_rows-append seen [] ys = refl
first_rows-append seen (x ∷ xs) ys = elim (Bool-cases (has seen x.txid)) [
  | inl e ↦ rw (add_all, add, e) (first_rows-append seen xs ys)
  | inr e ↦ rw (add_all, add, e) (ap (λ l. x ∷ l) (first_rows-append (seen ++ x.txid ∷ []) xs ys))
]

turn-shown : (s : Load) (c : Option PastCursor) → (turn s c).0.shown ≡ s.shown
unfolding turn
turn-shown s c = ground arith

arrive-shown :
    (s : Load) (c : Option PastCursor) (p : Page)
    → s.aborted ≡ false
    → (arrive s c p).0.shown ≡ s.shown ++ first_rows s.seen p.xlogs
arrive-shown s c p h =
    let new = ap (λ l. s.shown ++ l) (take_rows-eq-first_rows s.seen p.xlogs) in
    elim (arrive_cases s c p) [
      | inl (_, a) ↦ absurd (cc)
      | inr (inl (e, _)) ↦ rw e new
      | inr (inr (e, _)) ↦ rw e (turn-shown (show_page s p) (some p.cursor) ∙ new)
    ]

answer-shown :
    (s : Load) (i : ℕ) (c : Option PastCursor) (a : Option Page) (rs : List (Option Page))
    → s.aborted ≡ false
    → (answer s i c a).shown ++ first_rows (answer s i c a).seen (rows_of rs)
      ≡ s.shown ++ first_rows s.seen (rows_of (a ∷ rs))
unfolding answer
answer-shown s i c none rs h = refl
answer-shown s i c (some p) rs h =
    ap (λ l. l ++ first_rows (arrive s c p).0.seen (rows_of rs)) (arrive-shown s c p h)
    ∙ ap (λ l. (s.shown ++ first_rows s.seen p.xlogs) ++ first_rows l (rows_of rs))
        (arrive-seen s c p h)
    ∙ append_assoc s.shown (first_rows s.seen p.xlogs)
        (first_rows (add_all s.seen (txids p.xlogs)) (rows_of rs))
    ∙ ap (λ l. s.shown ++ l) (sym (first_rows-append s.seen p.xlogs (rows_of rs)))

Run-rows :
    {t s : Load} {rs : List (Option Page)}
    → Run t s rs
    → t.aborted ≡ false
    → t.shown ≡ s.shown ++ first_rows s.seen (rows_of rs)
Run-rows (stop {s = s} e) h = ap (λ u. u.shown) (sym e) ∙ sym (append-nil s.shown)
Run-rows (answers {s = s} {rs = rs} i c a _ r) h = elim (Bool-cases s.aborted) [
  | inl e ↦ let e2 = Run-aborted r (answer-aborted s i c a ∙ e) in absurd (cc)
  | inr e ↦ Run-rows r h ∙ answer-shown s i c a rs e
]
Run-rows (aborts r) h = let e = Run-aborted r refl in absurd (cc)

start_from-shown : (s : Load) (slices : List (ℕ × ℕ)) → (start_from s slices).shown ≡ s.shown
unfolding start_from
start_from-shown s [] = refl
start_from-shown s (slice ∷ rest) =
    start_from-shown
      (record ((turn s none).0) { workers = (turn s none).0.workers ++ (turn s none).1 ∷ [] }) rest
    ∙ turn-shown s none

-- As long as the user has not broken off, the rows shown are those that the answers brought, with all
-- their fields, each transaction once, in the order of its first arrival.
pub Run-shown :
    (slices : List (ℕ × ℕ)) (t : Load) (rs : List (Option Page))
    → Run t (start slices) rs
    → t.aborted ≡ false
    → t.shown ≡ first_rows [] (rows_of rs)
unfolding start
Run-shown slices t rs r h =
    Run-rows r h
    ∙ ap (λ l. l ++ first_rows (start_from no_load slices).seen (rows_of rs))
        (start_from-shown no_load slices)
    ∙ ap (λ l. first_rows l (rows_of rs)) (start_from-seen no_load slices)

abbrev is_error : Option Page → Bool
is_error none = true
is_error (some p) = false

abbrev pub any_error : List (Option Page) → Bool
any_error [] = false
any_error (a ∷ rs) = is_error a || any_error rs

turn-rejected : (s : Load) (c : Option PastCursor) → (turn s c).0.rejected ≡ s.rejected
unfolding turn
turn-rejected s c = ground arith

arrive-rejected :
    (s : Load) (c : Option PastCursor) (p : Page) → (arrive s c p).0.rejected ≡ s.rejected
arrive-rejected s c p = elim (arrive_cases s c p) [
  | inl (e, _) ↦ rw e refl
  | inr (inl (e, _)) ↦ rw e refl
  | inr (inr (e, _)) ↦ rw e (turn-rejected (show_page s p) (some p.cursor))
]

answer-rejected :
    (s : Load) (i : ℕ) (c : Option PastCursor) (a : Option Page)
    → (answer s i c a).rejected ≡ (s.rejected || is_error a)
unfolding answer
answer-rejected s i c none = ground arith
answer-rejected s i c (some p) = ground (arith, arrive-rejected s c p)

Run-rejected :
    {t s : Load} {rs : List (Option Page)} → Run t s rs → t.rejected ≡ (s.rejected || any_error rs)
Run-rejected (stop e) = rw e (ground arith)
Run-rejected (answers {s = s} i c a h r) = ground (arith, Run-rejected r, answer-rejected s i c a)
Run-rejected (aborts r) = Run-rejected r

start_from-rejected :
    (s : Load) (slices : List (ℕ × ℕ)) → (start_from s slices).rejected ≡ s.rejected
unfolding start_from
start_from-rejected s [] = refl
start_from-rejected s (slice ∷ rest) =
    start_from-rejected
      (record ((turn s none).0) { workers = (turn s none).0.workers ++ (turn s none).1 ∷ [] }) rest
    ∙ turn-rejected s none

capped_full : (t : Load) → Sound t → (t.capped && ltb t.pages max_pages) ≡ false
capped_full t v = ground (arith, v.cap_full)

-- The load ends without its last report exactly if the user broke it off or a request failed. The
-- report says that rows are cut off only when all pages were used up.
pub finish-error :
    (slices : List (ℕ × ℕ)) (t : Load) (rs : List (Option Page))
    → Run t (start slices) rs
    → (finish t ≡ (if t.aborted || any_error rs then none else some (t.pages, t.loaded, t.capped)))
      × ((t.capped && ltb t.pages max_pages) ≡ false)
unfolding start finish
finish-error slices t rs r =
    let v = Run-Sound r (start_from-Sound no_load slices no_load-Sound) in
    let e : t.rejected ≡ any_error rs =
      ground (arith, Run-rejected r, start_from-rejected no_load slices) in
    (rw e refl, capped_full t v)
