-- ===== src/Alerts/Watch.antt =====
-- features/xlog/utils/alertWatch.ts: what the list of alerts says while it is empty.
use nscouter.Base.{ltb, ℕ, Bool, not, Option, none, some, ◌-◌, ◌/◌, ◌%◌, ◌++◌, ◌==◌, if◌then◌else◌}
use nscouter.Base.Text.{Text, text, decimal}

-- The label of a span of milliseconds; a negative one counts as 0.
unfoldable pub elapsed_label : ℕ → Text
elapsed_label ms =
    let sec = ms / 1000 in
    let min = sec / 60 in
    if ltb sec 60
    then decimal sec ++ text "초"
    else if ltb min 60
    then decimal min ++ text "분"
    else decimal (min / 60) ++ text "시간 " ++ decimal (min % 60) ++ text "분"

unfoldable pub alert_watch_message : Bool → Option ℕ → ℕ → Text
alert_watch_message connected since now =
    if not connected then text "연결 후 사용 가능합니다." else elim since [
      | none ↦ text "알림 감시를 시작하는 중…"
      | some at ↦ elapsed_label (now - at) ++ text "째 지켜보는 중 · 알림은 임계치를 넘을 때만 옵니다"
    ]

pub data AlertLevel : Type 0 where
  info : AlertLevel
  warn : AlertLevel
  error : AlertLevel
  fatal : AlertLevel

abbrev pub alert_level_label : ℕ → AlertLevel
alert_level_label level =
    if level == 1 then warn else if level == 2 then error else if level == 3 then fatal else info
