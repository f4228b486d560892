-- ===== src/Xlog.antt =====
-- features/xlog/types/xlog.ts and timeRange.ts: the records that the components share. Times are
-- epoch milliseconds. A hash is compared with `===` only, so its sign does not matter.
use nscouter.Base.{ℕ, Bool, false, List, [], nat_eq, list_eq}
use nscouter.Base.Text.{Text}

pub record SXlog : Type 0 where
  pub txid : Text
  pub gxid : Text
  pub caller : Text
  pub end_time : ℕ
  pub elapsed : ℕ
  pub obj_hash : ℕ
  pub service : ℕ
  pub error : ℕ
  pub x_type : ℕ
  pub cpu : ℕ
  pub sql_count : ℕ
  pub sql_time : ℕ
  pub api_call_count : ℕ
  pub api_call_time : ℕ
  pub ip_addr : Text
  pub alloc_k_bytes : ℕ
  pub thread_name_hash : ℕ

pub data YAxisMode : Type 0 where
  elapsed cpu sql_time sql_count api_call_time api_call_count heap_used : YAxisMode

pub record XlogChartConfig : Type 0 where
  pub y_axis_mode : YAxisMode
  pub time_range_ms : ℕ
  pub y_max : ℕ
  pub show_ignore_area : Bool
  pub show_density : Bool
  pub ignore_threshold_ms : ℕ

abbrev pub default_chart_config : XlogChartConfig
default_chart_config = record {
  y_axis_mode = YAxisMode.elapsed;
  time_range_ms = 300_000;
  y_max = 9;
  show_ignore_area = false;
  show_density = false;
  ignore_threshold_ms = 0;
}

pub data FilterField : Type 0 where
  service ip : FilterField

pub record PatternRule : Type 0 where
  pub field : FilterField
  pub text : Text
  pub exclude : Bool

pub record XlogFilterState : Type 0 where
  pub elapsed_ms : ℕ
  pub elapsed_exclude : Bool
  pub error_only : Bool
  pub obj_hash_set : List ℕ
  pub patterns : List PatternRule

abbrev pub default_filter : XlogFilterState
default_filter = record {
  elapsed_ms = 0;
  elapsed_exclude = false;
  error_only = false;
  obj_hash_set = [];
  patterns = [];
}

pub record AgentObject : Type 0 where
  pub obj_hash : ℕ
  pub obj_type : Text
  pub obj_name : Text
  pub address : Text
  pub version : Text
  pub alive : Bool
  pub wakeup : ℕ
  pub tags : List (Text × Text)

pub data XlogMode : Type 0 where
  live past : XlogMode

pub record PastRange : Type 0 where
  pub stime : ℕ
  pub etime : ℕ
