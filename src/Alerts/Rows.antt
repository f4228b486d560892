-- ===== src/Alerts/Rows.antt =====
-- What the rows hold: each alert once, each burst the alerts of one service that lie close together.
use nscouter.Objects.{SeenObject}
use nscouter.Base.Text.{Text}
use nscouter.Selection.Service.{RegExp, GroupRule}
use nscouter.Alerts.{
  AlertPack, cut_runs, AlertRow, single, last_time, burst, GroupOptions, collect, burst_of,
  service_for, bursts_of, group_alerts, row_at, AlertBurst,
}
use mathlib.Core.List.{reverse_aux}
use nscouter.Base.{
  ltb, Bool-cases, Option-cases, ℕ, refl, ap, inl, inr, none, some, List, [], map, reverse, arith,
  ◌+◌, ◌≡◌, ◌∷◌, ◌++◌, ◌===◌, nat_eq, list_eq,
}
use nscouter.Base.Sorts.{
  total, total-append, Downward, total-sort_down, Downward-sort_down, sort_up, total-sort_up,
}
use nscouter.Base.Maps.{get, set}

abbrev pub row_alerts : AlertRow → List AlertPack
row_alerts (single a) = a ∷ []
row_alerts (burst b) = b.alerts

-- The sum of a weight over the alerts that the rows hold.
abbrev pub rows_total : (AlertPack → ℕ) → List AlertRow → ℕ
rows_total f rows = total (λ r. total f (row_alerts r)) rows

lists_total : (AlertPack → ℕ) → List (Text × List AlertPack) → ℕ
lists_total f [] = 0
lists_total f ((svc, list) ∷ by) = total f list + lists_total f by

runs_total : (AlertPack → ℕ) → List (List AlertPack) → ℕ
runs_total f runs = total (total f) runs

lists_total-set_new :
    (f : AlertPack → ℕ) (by : List (Text × List AlertPack)) (svc : Text) (list : List AlertPack)
    → get by svc ≡ none
    → lists_total f (set by svc list) ≡ lists_total f by + total f list
unfolding set get lists_total
lists_total-set_new f [] svc list h = omega arith
lists_total-set_new f ((s, l) ∷ by) svc list h = ground (arith, lists_total-set_new f by svc list)

lists_total-set :
    (f : AlertPack → ℕ) (by : List (Text × List AlertPack)) (svc : Text) (old list : List AlertPack)
    → get by svc ≡ some old
    → lists_total f (set by svc list) + total f old ≡ lists_total f by + total f list
unfolding set get lists_total
lists_total-set f [] svc old list h = absurd (cc)
lists_total-set f ((s, l) ∷ by) svc old list h = elim (Bool-cases (s === svc)) [
  | inl e ↦ let same : l ≡ old = ground arith in rw e (omega (arith, ap (total f) same))
  | inr e ↦ let ih = lists_total-set f by svc old list (ground arith) in rw e (omega (arith, ih))
]

total-reverse_aux :
    (f : AlertPack → ℕ) (xs ys : List AlertPack)
    → total f (reverse_aux xs ys) ≡ total f xs + total f ys
total-reverse_aux f [] ys = omega arith
total-reverse_aux f (x ∷ xs) ys = omega (arith, total-reverse_aux f xs (x ∷ ys))

total-reverse : (f : AlertPack → ℕ) (xs : List AlertPack) → total f (reverse xs) ≡ total f xs
total-reverse f xs = omega (arith, total-reverse_aux f xs [])

runs_total-cut_runs :
    (f : AlertPack → ℕ) (gap : ℕ) (cur rest : List AlertPack)
    → runs_total f (cut_runs gap cur rest) ≡ total f cur + total f rest
unfolding cut_runs runs_total
runs_total-cut_runs f gap [] [] = refl
runs_total-cut_runs f gap (c ∷ cur) [] = omega arith
runs_total-cut_runs f gap [] (a ∷ rest) = omega (arith, runs_total-cut_runs f gap (a ∷ []) rest)
runs_total-cut_runs f gap (c ∷ cur) (a ∷ rest) =
    elim (Bool-cases (ltb (last_time (c ∷ cur) + gap) a.time)) [
      | inl e ↦ rw (cut_runs, e) (omega (arith, runs_total-cut_runs f gap (a ∷ []) rest))
      | inr e ↦
          rw (cut_runs, e)
            (omega (
              arith,
              runs_total-cut_runs f gap ((c ∷ cur) ++ a ∷ []) rest,
              total-append f cur (a ∷ []),
            ))
    ]

burst_rows_append :
    (f : AlertPack → ℕ) (xs ys : List AlertBurst)
    → rows_total f (map burst (xs ++ ys))
      ≡ rows_total f (map burst xs) + rows_total f (map burst ys)
burst_rows_append f [] ys = omega arith
burst_rows_append f (x ∷ xs) ys = omega (arith, burst_rows_append f xs ys)

module _ (re : RegExp) (rule : GroupRule) (history : List (ℕ × SeenObject)) where
  collect-total :
      (f : AlertPack → ℕ) (by : List (Text × List AlertPack)) (singles rest : List AlertPack)
      → lists_total f (collect re rule history by singles rest).0
          + total f (collect re rule history by singles rest).1
        ≡ lists_total f by + total f singles + total f rest
  unfolding collect
  collect-total f by singles [] = omega arith
  collect-total f by singles (a ∷ rest) = elim (Option-cases (service_for re rule history a)) [
    | inl e ↦
        rw (collect, e)
          (omega
            (arith, collect-total f by (singles ++ a ∷ []) rest, total-append f singles (a ∷ [])))
    | inr (svc, e) ↦ elim (Option-cases (get by svc)) [
      | inl g ↦
          rw (collect, e, g)
            (omega (
              arith,
              collect-total f (set by svc (a ∷ [])) singles rest,
              lists_total-set_new f by svc (a ∷ []) g,
            ))
      | inr (list, g) ↦
          rw (collect, e, g)
            (omega (
              arith,
              collect-total f (set by svc (list ++ a ∷ [])) singles rest,
              lists_total-set f by svc list (list ++ a ∷ []) g,
              total-append f list (a ∷ []),
            ))
    ]
  ]

  singles_total :
      (f : AlertPack → ℕ) (rest : List AlertPack) → rows_total f (map single rest) ≡ total f rest
  singles_total f [] = refl
  singles_total f (a ∷ rest) = omega (arith, singles_total f rest)

  module _ (opts : GroupOptions) where
    runs_rows_total :
        (f : AlertPack → ℕ) (svc : Text) (runs : List (List AlertPack))
        → rows_total f (map burst (map (burst_of re rule history opts svc) runs))
          ≡ runs_total f runs
    unfolding burst_of runs_total
    runs_rows_total f svc [] = refl
    runs_rows_total f svc (run ∷ runs) =
        omega (arith, runs_rows_total f svc runs, total-reverse f run)

    bursts_total :
        (f : AlertPack → ℕ) (by : List (Text × List AlertPack))
        → rows_total f (map burst (bursts_of re rule history opts by)) ≡ lists_total f by
    unfolding bursts_of lists_total runs_total
    bursts_total f [] = refl
    bursts_total f ((svc, list) ∷ by) =
        let runs = cut_runs opts.burst_gap_ms [] (sort_up (λ a. a.time) list) in
        omega (
          arith,
          burst_rows_append f (map (burst_of re rule history opts svc) runs)
              (bursts_of re rule history opts by),
          runs_rows_total f svc runs,
          runs_total-cut_runs f opts.burst_gap_ms [] (sort_up (λ a. a.time) list),
          total-sort_up (λ a. a.time) f list,
          bursts_total f by,
        )

-- Every alert stands in one row: whatever is added up over the alerts, the rows give the same sum.
-- The rows are sorted by their last alert, the newest first.
pub group_alerts-total :
    (re : RegExp) (rule : GroupRule) (history : List (ℕ × SeenObject)) (opts : GroupOptions)
    (alerts : List AlertPack) (f : AlertPack → ℕ)
    → (rows_total f (group_alerts re rule history opts alerts) ≡ total f alerts)
      × Downward row_at (group_alerts re rule history opts alerts)
unfolding group_alerts lists_total
group_alerts-total re rule history opts alerts f =
    let r = collect re rule history [] [] alerts in
    let rows = map single r.1 ++ map burst (bursts_of re rule history opts r.0) in
    let g : AlertRow → ℕ = λ x. total f (row_alerts x) in
    (
      omega (
        arith,
        total-sort_down row_at g rows,
        total-append g (map single r.1) (map burst (bursts_of re rule history opts r.0)),
        singles_total re rule history f r.1,
        bursts_total re rule history opts f r.0,
        collect-total re rule history f [] [] alerts,
      ),
      Downward-sort_down row_at rows,
    )
