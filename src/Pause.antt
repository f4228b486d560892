-- ===== src/Pause.antt =====
-- features/xlog/hooks/pauseModel.ts: freezing the live window while collection goes on.
pub mod Window
mod Tests
use nscouter.Base.{ℕ, Option, none, some, ◌+◌, ◌-◌}
use nscouter.Base.Int.{ℤ, pos, sub_ℕ}

pub record PauseState : Type 0 where
  pub at : Option ℕ
  pub received_at : ℕ

abbrev pub not_paused : PauseState
not_paused = record { at = none; received_at = 0 }

unfoldable pub pause : ℕ → ℕ → PauseState
pause now received_total = record { at = some now; received_at = received_total }

-- `Math.max(0, a - b)` is the subtraction on ℕ.
unfoldable pub arrived_while_paused : PauseState → ℕ → ℕ
arrived_while_paused state received_total = elim state.at [
  | none ↦ 0
  | some at ↦ received_total - state.received_at
]

pub record TimeWindow : Type 0 where
  pub start : ℤ
  pub end : ℤ

unfoldable pub frozen_window : PauseState → ℕ → Option TimeWindow
frozen_window state range = elim state.at [
  | none ↦ none
  | some at ↦ some (record { start = sub_ℕ at range; end = pos at })
]

unfoldable pub prune_range_ms : PauseState → ℕ → ℕ → ℕ
prune_range_ms state range now = elim state.at [ none ↦ range | some at ↦ range + (now - at) ]
