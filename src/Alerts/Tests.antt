-- ===== src/Alerts/Tests.antt =====
-- A deployment: the two servers of a service go down, one after the other has come up.
use nscouter.Alerts.Watch.{alert_watch_message, elapsed_label}
use nscouter.Selection.Service.{service_name_of, from_tags, short_name}
use nscouter.Base.Sets.{add, add_all}
use nscouter.Base.Maps.{get, set}
use nscouter.Alerts.Verdicts.{Verdict, NotLost, group_alerts-Verdict, quiet_alerts-NotLost}
use nscouter.Base.Sorts.{sort_up, insert_up, All, total, sort_down, insert_down, Downward}
use nscouter.Alerts.Rows.{rows_total, group_alerts-total}
use nscouter.Base.{
  length, take, ℕ, refl, Bool, true, false, none, some, List, [], ◌≡◌, ◌∷◌, nat_eq, list_eq,
}
use nscouter.Base.Text.{text, trim, decimal}
use nscouter.Alerts.{
  AlertPack, RegExp, GroupRule, SeenObject, alert_object_down, GroupOptions, quiet_alerts,
  replace_grace_ms, group_alerts, replace_overlap_ms, collect, burst_gap_ms, bursts_of, burst_of,
  cut_runs, covered, row_at, takes_over, went_down,
}

-- An engine whose every pattern takes the first three characters.
abbrev three_letters : RegExp
three_letters pattern = some (λ name. some (record { svc = none; first = some (take 3 name) }))

abbrev rule : GroupRule
rule = record { tag_key = text "service"; pattern = text "^..." }

abbrev server : ℕ → ℕ → ℕ → Bool → SeenObject
server hash first last alive = record {
  obj_hash = hash;
  obj_name = text "/host/ord";
  obj_type = text "tomcat";
  tags = [];
  first_seen = first;
  last_alive = last;
  alive = alive;
}

abbrev history : List (ℕ × SeenObject)
history =
    (1, server 1 0 1_000_000 false)
    ∷ (2, server 2 0 1_010_000 false)
    ∷ (3, server 3 990_000 1_300_000 true)
    ∷ []

abbrev went_down_at : ℕ → ℕ → AlertPack
went_down_at hash time = record {
  time = time;
  obj_type = text "tomcat";
  obj_hash = hash;
  level = 1;
  title = alert_object_down;
  message = [];
}

-- Two of the service, and one of a server that was never seen.
abbrev alerts : List AlertPack
alerts = went_down_at 2 1_040_000 ∷ went_down_at 9 1_035_000 ∷ went_down_at 1 1_030_000 ∷ []

abbrev options : GroupOptions
options = record {
  grace_ms = replace_grace_ms;
  overlap_ms = replace_overlap_ms;
  burst_gap_ms = burst_gap_ms;
}

-- The badge counts the unknown one alone.
two_quiet : length (quiet_alerts (group_alerts three_letters rule history options alerts)) ≡ 2
unfolding quiet_alerts group_alerts collect bursts_of burst_of cut_runs sort_up insert_up sort_down
    insert_down covered takes_over went_down get set add_all add service_name_of from_tags
    short_name trim
two_quiet = refl

group_alerts-total_example :
    (rows_total (λ a. a.obj_hash) (group_alerts three_letters rule history options alerts)
      ≡ total (λ a. a.obj_hash) alerts)
    × Downward row_at (group_alerts three_letters rule history options alerts)
group_alerts-total_example =
    group_alerts-total three_letters rule history options alerts (λ a. a.obj_hash)

group_alerts-Verdict_example :
    All
      (Verdict three_letters rule history options)
      (group_alerts three_letters rule history options alerts)
group_alerts-Verdict_example = group_alerts-Verdict three_letters rule history options alerts

quiet_alerts-NotLost_example :
    All
      (NotLost three_letters rule history options)
      (quiet_alerts (group_alerts three_letters rule history options alerts))
quiet_alerts-NotLost_example = quiet_alerts-NotLost three_letters rule history options alerts

an_hour :
    alert_watch_message true (some 1_000) 3_781_999 ≡ text "1시간 3분째 지켜보는 중 · 알림은 임계치를 넘을 때만 옵니다"
unfolding alert_watch_message elapsed_label decimal
an_hour = refl
