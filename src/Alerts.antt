-- ===== src/Alerts.antt =====
-- features/xlog/utils/alertGroups.ts: the alerts on servers that went down or came back, one row for
-- those of a service that lie close together. `serviceOfHash` only keeps what `service_of` found, so
-- the model asks each time.
pub mod Rows
pub mod Bursts
pub mod Takeover
pub mod Verdicts
pub mod Watch
mod Tests
use nscouter.Base.Sorts.{sort_up, sort_down}
use nscouter.Base.Sets.{add_all}
use nscouter.Objects.{SeenObject, as_agent}
use nscouter.Selection.Service.{RegExp, GroupRule, service_name_of}
use nscouter.Base.{
  ltb, leb, length, ℕ, Bool, true, false, not, Option, none, some, List, [], map, reverse, ◌+◌, ◌-◌,
  ◌*◌, ◌&&◌, ◌||◌, ◌∷◌, ◌++◌, ◌==◌, ◌===◌, if◌then◌else◌, nat_eq, list_eq,
}
use nscouter.Base.Text.{Text, text}
use nscouter.Base.Maps.{get, set, values}

abbrev pub alert_object_down : Text
alert_object_down = text "INACTIVE_OBJECT"

abbrev pub alert_object_up : Text
alert_object_up = text "ACTIVATED_OBJECT"

abbrev pub replace_grace_ms : ℕ
replace_grace_ms = 3 * 60_000

abbrev pub replace_overlap_ms : ℕ
replace_overlap_ms = 30_000

abbrev pub burst_gap_ms : ℕ
burst_gap_ms = 5 * 60_000

pub record AlertPack : Type 0 where
  pub time : ℕ
  pub obj_type : Text
  pub obj_hash : ℕ
  pub level : ℕ
  pub title : Text
  pub message : Text

pub data Status : Type 0 where
  replaced : Status
  down : Status

pub record AlertBurst : Type 0 where
  pub service : Text
  pub status : Status
  pub alerts : List AlertPack
  pub from : ℕ
  pub to : ℕ
  pub down_count : ℕ
  pub up_count : ℕ
  pub replaced_count : ℕ
  pub lost_count : ℕ
  pub recovered : Bool

pub data AlertRow : Type 0 where
  single : AlertPack → AlertRow
  burst : AlertBurst → AlertRow

-- The options, each with its default where it was left out.
pub record GroupOptions : Type 0 where
  pub grace_ms : ℕ
  pub overlap_ms : ℕ
  pub burst_gap_ms : ℕ

abbrev pub is_lifecycle : AlertPack → Bool
is_lifecycle a = a.title === alert_object_down || a.title === alert_object_up

abbrev pub row_at : AlertRow → ℕ
row_at (single a) = a.time
row_at (burst b) = b.to

abbrev pub filter_alerts : (AlertPack → Bool) → List AlertPack → List AlertPack
filter_alerts p [] = []
filter_alerts p (a ∷ rest) = if p a then a ∷ filter_alerts p rest else filter_alerts p rest

abbrev pub hashes_of : List AlertPack → List ℕ
hashes_of [] = []
hashes_of (a ∷ rest) = a.obj_hash ∷ hashes_of rest

-- `cur[cur.length - 1].time`, and 0 where `cur` is empty.
abbrev pub last_time : List AlertPack → ℕ
last_time [] = 0
last_time (a ∷ []) = a.time
last_time (a ∷ b ∷ rest) = last_time (b ∷ rest)

abbrev pub first_time : List AlertPack → ℕ
first_time [] = 0
first_time (a ∷ rest) = a.time

-- The runs that `flush` is called with, `cur` in front.
unfoldable pub cut_runs : ℕ → List AlertPack → List AlertPack → List (List AlertPack)
cut_runs gap [] [] = []
cut_runs gap (c ∷ cur) [] = (c ∷ cur) ∷ []
cut_runs gap [] (a ∷ rest) = cut_runs gap (a ∷ []) rest
cut_runs gap (c ∷ cur) (a ∷ rest) = elim (ltb (last_time (c ∷ cur) + gap) a.time) [
  | true ↦ (c ∷ cur) ∷ cut_runs gap (a ∷ []) rest
  | false ↦ cut_runs gap ((c ∷ cur) ++ a ∷ []) rest
]

abbrev pub is_title : Text → AlertPack → Bool
is_title t a = a.title === t

module _ (re : RegExp) (rule : GroupRule) (history : List (ℕ × SeenObject)) where
  abbrev pub service_of : ℕ → Option Text
  service_of hash = elim (get history hash) [
    | none ↦ none
    | some seen ↦ service_name_of re rule (as_agent seen)
  ]

  abbrev pub service_for : AlertPack → Option Text
  service_for a = if is_lifecycle a then service_of a.obj_hash else none

  abbrev pub in_service : Text → ℕ → Bool
  in_service svc hash = elim (service_of hash) [ none ↦ false | some s ↦ s === svc ]

  -- `byService` and `singles` after the alerts.
  unfoldable pub collect :
      List (Text × List AlertPack)
      → List AlertPack
      → List AlertPack
      → List (Text × List AlertPack) × List AlertPack
  collect by singles [] = (by, singles)
  collect by singles (a ∷ rest) = elim (service_for a) [
    | none ↦ collect by (singles ++ a ∷ []) rest
    | some svc ↦ elim (get by svc) [
      | none ↦ collect (set by svc (a ∷ [])) singles rest
      | some list ↦ collect (set by svc (list ++ a ∷ [])) singles rest
    ]
  ]

  -- When it went down: its last heartbeat, unless that is not to be used.
  unfoldable pub went_down : AlertPack → ℕ
  went_down a = elim (get history a.obj_hash) [
    | none ↦ a.time
    | some x ↦
        if not x.alive && ltb 0 x.last_alive && leb x.last_alive a.time
        then x.last_alive
        else a.time
  ]

  module _ (opts : GroupOptions) where
    unfoldable pub takes_over : AlertPack → Text → ℕ → SeenObject → Bool
    takes_over a svc t_down y =
        if y.obj_hash == a.obj_hash
        then false
        else if not (in_service svc y.obj_hash)
        then false
        else if ltb (t_down + opts.grace_ms) y.first_seen
        then false
        else y.alive || leb (t_down + opts.overlap_ms) y.last_alive

    abbrev pub any_takes_over : AlertPack → Text → ℕ → List SeenObject → Bool
    any_takes_over a svc t_down [] = false
    any_takes_over a svc t_down (y ∷ ys) =
        takes_over a svc t_down y || any_takes_over a svc t_down ys

    unfoldable pub covered : AlertPack → Text → Bool
    covered a svc = any_takes_over a svc (went_down a) (values history)

    abbrev pub any_alive : Text → List SeenObject → Bool
    any_alive svc [] = false
    any_alive svc (y ∷ ys) = (y.alive && in_service svc y.obj_hash) || any_alive svc ys

    abbrev pub is_lost : Text → AlertPack → Bool
    is_lost svc a = is_title alert_object_down a && not (covered a svc)

    -- `flush`, with `cur` not empty.
    unfoldable pub burst_of : Text → List AlertPack → AlertBurst
    burst_of svc cur =
        let down_hashes = add_all [] (hashes_of (filter_alerts (is_title alert_object_down) cur)) in
        let lost_hashes = add_all [] (hashes_of (filter_alerts (is_lost svc) cur)) in
        let up_hashes = add_all [] (hashes_of (filter_alerts (is_title alert_object_up) cur)) in
        let is_down = ltb 0 (length lost_hashes) in
        record {
          service = svc;
          status = if is_down then down else replaced;
          alerts = reverse cur;
          from = first_time cur;
          to = last_time cur;
          down_count = length down_hashes;
          up_count = length up_hashes;
          replaced_count = length down_hashes - length lost_hashes;
          lost_count = length lost_hashes;
          recovered = is_down && any_alive svc (values history);
        }

    unfoldable pub bursts_of : List (Text × List AlertPack) → List AlertBurst
    bursts_of [] = []
    bursts_of ((svc, list) ∷ by) =
        map (burst_of svc) (cut_runs opts.burst_gap_ms [] (sort_up (λ a. a.time) list))
        ++ bursts_of by

    unfoldable pub group_alerts : List AlertPack → List AlertRow
    group_alerts alerts =
        let r = collect [] [] alerts in
        sort_down row_at (map single r.1 ++ map burst (bursts_of r.0))

-- The set, as the list of what is added to it; the same alert object is added once.
unfoldable pub quiet_alerts : List AlertRow → List AlertPack
quiet_alerts [] = []
quiet_alerts (single a ∷ rows) = quiet_alerts rows
quiet_alerts (burst b ∷ rows) = elim b.status [
  | replaced ↦ b.alerts ++ quiet_alerts rows
  | down ↦ quiet_alerts rows
]
