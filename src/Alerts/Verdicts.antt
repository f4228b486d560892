-- ===== src/Alerts/Verdicts.antt =====
-- What the rows say of the alerts that they hold.
use nscouter.Base.Sets.{add_all}
use nscouter.Alerts.Bursts.{
  length-reverse_aux, Run, Close, filter_le, All-reverse_aux, filter_none, cut_runs-Run, After-zero,
}
use nscouter.Alerts.Takeover.{Settled, Settled-of, Judged, burst_of-Judged}
use nscouter.Base.Text.{Text}
use nscouter.Objects.{SeenObject}
use nscouter.Selection.Service.{RegExp, GroupRule}
use nscouter.Alerts.{
  replaced, down, Status, AlertPack, collect, service_for, GroupOptions, is_lost, AlertRow,
  burst_of, single, quiet_alerts, burst, is_title, alert_object_down, AlertBurst, hashes_of,
  bursts_of, group_alerts, filter_alerts, sort_up, cut_runs, row_at,
}
use mathlib.Core.List.{reverse-reverse}
use nscouter.Base.{
  ltb, Bool-cases, Option-cases, length, list_beq_iff, ℕ, refl, sym, subst, inl, inr, Bool, true,
  false, not, none, some, List, [], map, reverse, arith, ◌+◌, ◌<◌, ◌≡◌, ◌&&◌, ◌∷◌, ◌++◌, ◌===◌,
  nat_eq, list_eq,
}
use nscouter.Base.Sorts.{All, All-append, All-sort_down, Upward-sort_up, All-sort_up}
use nscouter.Base.Maps.{get, set}

-- `status` as a test.
abbrev pub is_down : Status → Bool
is_down replaced = false
is_down down = true

All-In :
    (P Q : AlertPack → Type 0) (xs : List AlertPack)
    → ((a : AlertPack) → P a → Q a)
    → All P xs
    → All Q xs
All-In P Q [] f a = tt
All-In P Q (x ∷ xs) f a = (f x a.0, All-In P Q xs f a.1)

module _ (re : RegExp) (rule : GroupRule) (history : List (ℕ × SeenObject)) where
  -- All alerts are of the service.
  abbrev pub OfService : Text → AlertPack → Type 0
  OfService svc a = service_for re rule history a ≡ some svc

  abbrev Kept : Text × List AlertPack → Type 0
  Kept (svc, list) = All (OfService svc) list

  Kept-get :
      (by : List (Text × List AlertPack)) (svc : Text) (list : List AlertPack)
      → All Kept by
      → get by svc ≡ some list
      → All (OfService svc) list
  unfolding get
  Kept-get [] svc list k h = absurd (cc)
  Kept-get ((s, l) ∷ by) svc list k h = elim (Bool-cases (s === svc)) [
    | inl e ↦
        let p : s ≡ svc = (list_beq_iff s svc).0 e in
        let q : l ≡ list = ground arith in
        subst (λ t. All (OfService t) list) p (subst (λ xs. All (OfService s) xs) q k.0)
    | inr e ↦ Kept-get by svc list k.1 (ground arith)
  ]

  Kept-set :
      (by : List (Text × List AlertPack)) (svc : Text) (list : List AlertPack)
      → All Kept by
      → All (OfService svc) list
      → All Kept (set by svc list)
  unfolding set
  Kept-set [] svc list k a = (a, tt)
  Kept-set ((s, l) ∷ by) svc list k a = elim (Bool-cases (s === svc)) [
    | inl e ↦
        let p : s ≡ svc = (list_beq_iff s svc).0 e in
        rw e (subst (λ t. All (OfService t) list) (sym p) a, k.1)
    | inr e ↦ rw e (k.0, Kept-set by svc list k.1 a)
  ]

  abbrev Alone : AlertPack → Type 0
  Alone a = service_for re rule history a ≡ none

  collect-Kept :
      (by : List (Text × List AlertPack)) (singles rest : List AlertPack)
      → All Kept by
      → All Alone singles
      → All Kept (collect re rule history by singles rest).0
        × All Alone (collect re rule history by singles rest).1
  unfolding collect
  collect-Kept by singles [] k s = (k, s)
  collect-Kept by singles (a ∷ rest) k s = elim (Option-cases (service_for re rule history a)) [
    | inl e ↦
        rw (collect, e)
          (collect-Kept by (singles ++ a ∷ []) rest k (All-append Alone singles (a ∷ []) s (e, tt)))
    | inr (svc, e) ↦ elim (Option-cases (get by svc)) [
      | inl g ↦
          rw (collect, e, g)
            (collect-Kept (set by svc (a ∷ [])) singles rest (Kept-set by svc (a ∷ []) k (e, tt)) s)
      | inr (list, g) ↦
          rw (collect, e, g)
            (collect-Kept (set by svc (list ++ a ∷ [])) singles rest
              (Kept-set by svc (list ++ a ∷ []) k
                (All-append (OfService svc) list (a ∷ []) (Kept-get by svc list k g) (e, tt)))
              s)
    ]
  ]

  module _ (opts : GroupOptions) where
    -- An alert on a server of a known service; where it went down, another one took over.
    abbrev pub NotLost : AlertPack → Type 0
    NotLost a =
        (svc : Text) × (service_for re rule history a ≡ some svc)
        × Settled re rule history opts svc a

    -- A row of its own is for an alert that is not of a known service. A burst holds the alerts of one
    -- service, each within the gap of the one before; its numbers add up, and it is down where a
    -- server that went down was not replaced.
    abbrev pub Verdict : AlertRow → Type 0
    Verdict (single a) = Alone a
    Verdict (burst b) =
        All (OfService b.service) b.alerts
        × Close opts.burst_gap_ms (reverse b.alerts)
        × (0 < length b.alerts)
        × (b.replaced_count + b.lost_count ≡ b.down_count)
        × (is_down b.status ≡ ltb 0 b.lost_count)
        × ((b.recovered && not (is_down b.status)) ≡ false)
        × Judged re rule history opts b

    abbrev Quiet : AlertRow → Type 0
    Quiet (single a) = Unit
    Quiet (burst b) = b.status ≡ replaced → All NotLost b.alerts

    burst_of-Verdict :
        (svc : Text) (run : List AlertPack)
        → Run (OfService svc) opts.burst_gap_ms run
        → Verdict (burst (burst_of re rule history opts svc run))
    unfolding burst_of
    burst_of-Verdict svc run r =
        let few =
          filter_le (is_lost re rule history opts svc) (is_title alert_object_down) run
            (λ a e. lost_down a e) in
        (
          All-reverse_aux (OfService svc) run [] r.all tt,
          rw (reverse-reverse run) r.close,
          rw (r.is, length-reverse_aux (r.first ∷ r.others) []) (omega arith),
          omega (arith, few),
          ground arith,
          ground arith,
          burst_of-Judged re rule history opts svc run,
        )
      where
        lost_down :
            (a : AlertPack)
            → is_lost re rule history opts svc a ≡ true
            → is_title alert_object_down a ≡ true
        lost_down a e = ground arith

    found_NotLost :
        (svc : Text) (run : List AlertPack)
        → All (OfService svc) run
        → All (λ a. is_lost re rule history opts svc a ≡ false) run
        → All NotLost run
    found_NotLost svc [] p q = tt
    found_NotLost svc (a ∷ run) p q =
        ((svc, p.0, Settled-of re rule history opts svc a q.0), found_NotLost svc run p.1 q.1)

    burst_of-Quiet :
        (svc : Text) (run : List AlertPack)
        → Run (OfService svc) opts.burst_gap_ms run
        → Quiet (burst (burst_of re rule history opts svc run))
    unfolding burst_of
    burst_of-Quiet svc run r e =
        All-reverse_aux NotLost run []
          (found_NotLost svc run r.all
            (filter_none (is_lost re rule history opts svc) run (none_lost e)))
          tt
      where
        none_lost :
            (burst_of re rule history opts svc run).status ≡ replaced
            → length (add_all [] (hashes_of (filter_alerts (is_lost re rule history opts svc) run)))
              ≡ 0
        none_lost e = ground arith

    abbrev Fine : AlertRow → Type 0
    Fine r = Verdict r × Quiet r

    runs-Fine :
        (svc : Text) (runs : List (List AlertPack))
        → All (Run (OfService svc) opts.burst_gap_ms) runs
        → All Fine (map burst (map (burst_of re rule history opts svc) runs))
    runs-Fine svc [] a = tt
    runs-Fine svc (run ∷ runs) a =
        ((burst_of-Verdict svc run a.0, burst_of-Quiet svc run a.0), runs-Fine svc runs a.1)

    bursts_append :
        (xs ys : List AlertBurst)
        → All Fine (map burst xs)
        → All Fine (map burst ys)
        → All Fine (map burst (xs ++ ys))
    bursts_append [] ys a b = b
    bursts_append (x ∷ xs) ys a b = (a.0, bursts_append xs ys a.1 b)

    bursts_of-Fine :
        (by : List (Text × List AlertPack))
        → All Kept by
        → All Fine (map burst (bursts_of re rule history opts by))
    unfolding bursts_of
    bursts_of-Fine [] k = tt
    bursts_of-Fine ((svc, list) ∷ by) k =
        let asc = sort_up (λ (a : AlertPack). a.time) list in
        let runs = cut_runs opts.burst_gap_ms [] asc in
        let good : All (Run (OfService svc) opts.burst_gap_ms) runs =
          cut_runs-Run (OfService svc) opts.burst_gap_ms [] asc tt tt (After-zero asc)
            (Upward-sort_up (λ a. a.time) list)
            (All-sort_up (λ a. a.time) (OfService svc) list k.0) in
        bursts_append (map (burst_of re rule history opts svc) runs)
          (bursts_of re rule history opts by) (runs-Fine svc runs good) (bursts_of-Fine by k.1)

    singles-Fine : (xs : List AlertPack) → All Alone xs → All Fine (map single xs)
    unfolding quiet_alerts
    singles-Fine [] a = tt
    singles-Fine (x ∷ xs) a = ((a.0, tt), singles-Fine xs a.1)

    rows-Fine : (alerts : List AlertPack) → All Fine (group_alerts re rule history opts alerts)
    unfolding group_alerts
    rows-Fine alerts =
        let r = collect re rule history [] [] alerts in
        let k = collect-Kept [] [] alerts tt tt in
        All-sort_down row_at Fine (map single r.1 ++ map burst (bursts_of re rule history opts r.0))
          (All-append Fine (map single r.1) (map burst (bursts_of re rule history opts r.0))
            (singles-Fine r.1 k.1) (bursts_of-Fine r.0 k.0))

    rows-Verdict : (rows : List AlertRow) → All Fine rows → All Verdict rows
    rows-Verdict [] a = tt
    rows-Verdict (r ∷ rows) a = (a.0.0, rows-Verdict rows a.1)

    rows-Quiet : (rows : List AlertRow) → All Fine rows → All NotLost (quiet_alerts rows)
    unfolding quiet_alerts
    rows-Quiet [] a = tt
    rows-Quiet (single x ∷ rows) a = rows-Quiet rows a.1
    rows-Quiet (burst b ∷ rows) a = go (rows-Quiet rows a.1) b.status refl
      where
        go :
            All NotLost (quiet_alerts rows)
            → (s : Status) → b.status ≡ s
            → All NotLost
                (elim s [ replaced ↦ b.alerts ++ quiet_alerts rows | down ↦ quiet_alerts rows ])
        go q replaced e = All-append NotLost b.alerts (quiet_alerts rows) (a.0.1 e) q
        go q down e = q

-- A row of its own is for an alert that is not on a server of a known service going down or coming
-- back. A burst holds alerts of its one service, each within the gap of the one before it, and at
-- least one; the servers lost and those replaced add up to those that went down. Its status is
-- replaced, and each server in it that went down was replaced by another one of the service, or it
-- is down, one was not replaced, and some are counted as lost.
pub group_alerts-Verdict :
    (re : RegExp) (rule : GroupRule) (history : List (ℕ × SeenObject)) (opts : GroupOptions)
    (alerts : List AlertPack)
    → All (Verdict re rule history opts) (group_alerts re rule history opts alerts)
group_alerts-Verdict re rule history opts alerts =
    rows-Verdict re rule history opts (group_alerts re rule history opts alerts)
      (rows-Fine re rule history opts alerts)

-- Each alert that the badge leaves out is on a server of a known service, and where it tells that the
-- server went down, another one of the service took over from it: one that was there in time, and is
-- up or stayed long enough.
pub quiet_alerts-NotLost :
    (re : RegExp) (rule : GroupRule) (history : List (ℕ × SeenObject)) (opts : GroupOptions)
    (alerts : List AlertPack)
    → All (NotLost re rule history opts) (quiet_alerts (group_alerts re rule history opts alerts))
quiet_alerts-NotLost re rule history opts alerts =
    rows-Quiet re rule history opts (group_alerts re rule history opts alerts)
      (rows-Fine re rule history opts alerts)
