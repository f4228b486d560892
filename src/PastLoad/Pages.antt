-- ===== src/PastLoad/Pages.antt =====
-- What the answers of the collector bring to the screen, in whatever order they come.
use nscouter.Base.{
  Bool-cases, length, get_elem?, length-append, ℕ, zero, suc, refl, sym, ap, inl, inr, Bool, true,
  false, not, Option, none, some, List, [], append-nil, append_assoc, arith, ◌+◌, ◌≤◌, ◌≡◌, ◌∙◌,
  ◌⊎◌, ◌||◌, ◌∷◌, ◌++◌, if◌then◌else◌, nat_eq, list_eq, set,
}
use nscouter.Base.Sets.{has, add, add_all, Distinct, Distinct-add}
use nscouter.Base.Text.{Text}
use nscouter.Columns.{XlogPack}
use nscouter.PastLoad.{
  PastCursor, Page, Worker, waiting, ended, Load, turn, take_rows, show_page, arrive, start_from,
  answer, max_pages, is_stuck,
}

-- The load comes from `s` to `t` by these answers, each to some request that is out; the user may
-- break it off at any time.
pub data Run (t : Load) : Load → List (Option Page) → Type 0 where
  stop : {s : Load} → s ≡ t → Run t s []
  answers :
      {s : Load} {rs : List (Option Page)} (i : ℕ) (c : Option PastCursor) (a : Option Page)
      → get_elem? s.workers i ≡ some (waiting c)
      → Run t (answer s i c a) rs
      → Run t s (a ∷ rs)
  aborts :
      {s : Load} {rs : List (Option Page)} → Run t (record s { aborted = true }) rs → Run t s rs

abbrev pub is_waiting : Worker → ℕ
is_waiting (waiting c) = 1
is_waiting ended = 0

-- The requests that are out.
abbrev pub requests_out : List Worker → ℕ
requests_out [] = 0
requests_out (w ∷ ws) = is_waiting w + requests_out ws

abbrev pub txids : List XlogPack → List Text
txids [] = []
txids (x ∷ xs) = x.txid ∷ txids xs

-- All rows that came.
abbrev pub rows_of : List (Option Page) → List XlogPack
rows_of [] = []
rows_of (none ∷ rs) = rows_of rs
rows_of (some p ∷ rs) = p.xlogs ++ rows_of rs

pub requests_out-set :
    (ws : List Worker) (i : ℕ) (c : Option PastCursor) (w : Worker)
    → get_elem? ws i ≡ some (waiting c)
    → requests_out (set ws i w) + 1 ≡ requests_out ws + is_waiting w
requests_out-set [] i c w h = absurd (cc)
requests_out-set (v ∷ ws) zero c w h = ground arith
requests_out-set (v ∷ ws) (suc i) c w h = omega (arith, requests_out-set ws i c w h)

pub requests_out-append :
    (ws : List Worker) (w : Worker) → requests_out (ws ++ w ∷ []) ≡ requests_out ws + is_waiting w
requests_out-append [] w = omega arith
requests_out-append (v ∷ ws) w = omega (arith, requests_out-append ws w)

-- The counters agree, and what is shown is what was seen, each row once.
pub record Sound (s : Load) : Type 0 where
  pub few : s.pages ≤ max_pages
  pub cap_full : s.capped ≡ true → s.pages ≡ max_pages
  pub distinct : Distinct s.seen
  pub shown_seen : txids s.shown ≡ s.seen
  pub counted : s.loaded ≡ length s.shown

turn-Sound : (s : Load) (c : Option PastCursor) → Sound s → Sound (turn s c).0
unfolding turn
turn-Sound s c v = ground arith

Distinct-take_rows :
    (seen : List Text) (xs : List XlogPack) → Distinct seen → Distinct (take_rows seen xs).0
unfolding take_rows
Distinct-take_rows seen [] d = d
Distinct-take_rows seen (x ∷ xs) d = elim (Bool-cases (has seen x.txid)) [
  | inl e ↦ rw (take_rows, e) (Distinct-take_rows seen xs d)
  | inr e ↦ rw (take_rows, e) (Distinct-take_rows (add seen x.txid) xs (Distinct-add seen x.txid d))
]

pub txids-append : (xs ys : List XlogPack) → txids (xs ++ ys) ≡ txids xs ++ txids ys
txids-append [] ys = refl
txids-append (x ∷ xs) ys = ap (λ l. x.txid ∷ l) (txids-append xs ys)

add-new : (seen : List Text) (t : Text) → has seen t ≡ false → add seen t ≡ seen ++ t ∷ []
unfolding add
add-new seen t h = rw h refl

-- What is seen grows by the rows that are shown, at the end.
pub take_rows-seen :
    (seen : List Text) (xs : List XlogPack)
    → seen ++ txids (take_rows seen xs).1 ≡ (take_rows seen xs).0
unfolding take_rows
take_rows-seen seen [] = append-nil seen
take_rows-seen seen (x ∷ xs) = elim (Bool-cases (has seen x.txid)) [
  | inl e ↦ rw (take_rows, e) (take_rows-seen seen xs)
  | inr e ↦
      let ih = take_rows-seen (add seen x.txid) xs in
      let new : add seen x.txid ≡ seen ++ x.txid ∷ [] = add-new seen x.txid e in
      let fresh = txids (take_rows (add seen x.txid) xs).1 in
      rw (take_rows, e)
        (sym (append_assoc seen (x.txid ∷ []) fresh) ∙ ap (λ l. l ++ fresh) (sym new) ∙ ih)
]

add-old : (seen : List Text) (t : Text) → has seen t ≡ true → add seen t ≡ seen
unfolding add
add-old seen t h = rw h refl

pub take_rows-eq-add_all :
    (seen : List Text) (xs : List XlogPack) → (take_rows seen xs).0 ≡ add_all seen (txids xs)
unfolding take_rows add_all
take_rows-eq-add_all seen [] = refl
take_rows-eq-add_all seen (x ∷ xs) = elim (Bool-cases (has seen x.txid)) [
  | inl e ↦
      rw (take_rows, e)
        (take_rows-eq-add_all seen xs
          ∙ ap (λ l. add_all l (txids xs)) (sym (add-old seen x.txid e)))
  | inr e ↦ rw (take_rows, e) (take_rows-eq-add_all (add seen x.txid) xs)
]

show_page-Sound : (s : Load) (p : Page) → Sound s → Sound (show_page s p)
show_page-Sound s p v = record {
  few = v.few;
  cap_full = v.cap_full;
  distinct = Distinct-take_rows s.seen p.xlogs v.distinct;
  shown_seen =
      txids-append s.shown (take_rows s.seen p.xlogs).1
      ∙ ap (λ l. l ++ txids (take_rows s.seen p.xlogs).1) v.shown_seen
      ∙ take_rows-seen s.seen p.xlogs;
  counted = omega (arith, v.counted, length-append s.shown (take_rows s.seen p.xlogs).1);
}

pub arrive_cases :
    (s : Load) (c : Option PastCursor) (p : Page)
    → (arrive s c p ≡ (s, ended)) × (s.aborted ≡ true)
      ⊎ (arrive s c p ≡ (show_page s p, ended)) × (s.aborted ≡ false)
      ⊎ (arrive s c p ≡ turn (show_page s p) (some p.cursor)) × (s.aborted ≡ false)
unfolding arrive
arrive_cases s c p = split s.aborted (not p.cursor.has_more || is_stuck c p.cursor) refl
  where
    split :
        (a d : Bool)
        → s.aborted ≡ a
        → ((if a
                then (s, ended)
                else if d
                then (show_page s p, ended)
                else turn (show_page s p) (some p.cursor))
              ≡ (s, ended))
            × (s.aborted ≡ true)
          ⊎ ((if a
                then (s, ended)
                else if d
                then (show_page s p, ended)
                else turn (show_page s p) (some p.cursor))
              ≡ (show_page s p, ended))
            × (s.aborted ≡ false)
          ⊎ ((if a
                then (s, ended)
                else if d
                then (show_page s p, ended)
                else turn (show_page s p) (some p.cursor))
              ≡ turn (show_page s p) (some p.cursor))
            × (s.aborted ≡ false)
    split true d e = inl (refl, e)
    split false true e = inr (inl (refl, e))
    split false false e = inr (inr (refl, e))

arrive-Sound : (s : Load) (c : Option PastCursor) (p : Page) → Sound s → Sound (arrive s c p).0
arrive-Sound s c p v = elim (arrive_cases s c p) [
  | inl (e, _) ↦ rw e v
  | inr (inl (e, _)) ↦ rw e (show_page-Sound s p v)
  | inr (inr (e, _)) ↦ rw e (turn-Sound (show_page s p) (some p.cursor) (show_page-Sound s p v))
]

pub same_Sound :
    (s t : Load)
    → t.pages ≡ s.pages
    → t.capped ≡ s.capped
    → t.seen ≡ s.seen
    → t.shown ≡ s.shown
    → t.loaded ≡ s.loaded
    → Sound s
    → Sound t
same_Sound s t a b c d e v = record {
  few = rw a v.few;
  cap_full = rw (a, b) v.cap_full;
  distinct = rw c v.distinct;
  shown_seen = rw (c, d) v.shown_seen;
  counted = rw (d, e) v.counted;
}

pub answer-Sound :
    (s : Load) (i : ℕ) (c : Option PastCursor) (a : Option Page) → Sound s → Sound (answer s i c a)
unfolding answer
answer-Sound s i c none v = same_Sound s _ refl refl refl refl refl v
answer-Sound s i c (some p) v =
    same_Sound (arrive s c p).0 _ refl refl refl refl refl (arrive-Sound s c p v)

-- A page that is counted has its request out.
pub turn-counts :
    (s : Load) (c : Option PastCursor)
    → ((turn s c).0.pages ≡ s.pages + is_waiting (turn s c).1)
      × ((turn s c).0.workers ≡ s.workers)
      × ((turn s c).0.aborted ≡ s.aborted)
      × ((turn s c).0.seen ≡ s.seen)
unfolding turn
turn-counts s c = ground arith

pub arrive-counts :
    (s : Load) (c : Option PastCursor) (p : Page)
    → ((arrive s c p).0.pages ≡ s.pages + is_waiting (arrive s c p).1)
      × ((arrive s c p).0.workers ≡ s.workers)
      × ((arrive s c p).0.aborted ≡ s.aborted)
arrive-counts s c p = elim (arrive_cases s c p) [
  | inl (e, _) ↦ rw e (omega arith, refl, refl)
  | inr (inl (e, _)) ↦ rw e (omega arith, refl, refl)
  | inr (inr (e, _)) ↦
      let (n, w, a, _) = turn-counts (show_page s p) (some p.cursor) in rw e (n, w, a)
]

-- Every answer takes its request from those that are out; each request is counted as a page.
pub answer-counts :
    (s : Load) (i : ℕ) (c : Option PastCursor) (a : Option Page)
    → get_elem? s.workers i ≡ some (waiting c)
    → requests_out (answer s i c a).workers + 1 + s.pages
      ≡ requests_out s.workers + (answer s i c a).pages
unfolding answer
answer-counts s i c none h = omega (arith, requests_out-set s.workers i c ended h)
answer-counts s i c (some p) h =
    let (n, w, _) = arrive-counts s c p in
    let k = requests_out-set s.workers i c (arrive s c p).1 h in rw w (omega (arith, n, k))

pub start_from-Sound : (s : Load) (slices : List (ℕ × ℕ)) → Sound s → Sound (start_from s slices)
unfolding start_from
start_from-Sound s [] v = v
start_from-Sound s (slice ∷ rest) v =
    start_from-Sound
      (record ((turn s none).0) { workers = (turn s none).0.workers ++ (turn s none).1 ∷ [] }) rest
      (same_Sound (turn s none).0 _ refl refl refl refl refl (turn-Sound s none v))
