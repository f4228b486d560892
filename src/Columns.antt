-- ===== src/Columns.antt =====
-- features/xlog/types/xlog.ts: transactions as they come from the desktop shell, one by one or a
-- batch in columns. `columns_of` is what src-tauri/src/scouter/xlog_columns.rs sends.
pub mod Rows
pub mod Samples
mod Tests
use nscouter.Base.Options.{◌>>=◌}
use nscouter.Base.Text.{Text}
use nscouter.Base.{
  length, get_elem?, ℕ, zero, suc, Bool, Option, some, List, [], map, ◌∷◌, nat_eq, list_eq,
}
use nscouter.Xlog.{SXlog}

pub record XlogPack : Type 0 where
  pub end_time : ℕ
  pub obj_hash : ℕ
  pub service : ℕ
  pub txid : Text
  pub caller : Text
  pub gxid : Text
  pub elapsed : ℕ
  pub error : ℕ
  pub cpu : ℕ
  pub sql_count : ℕ
  pub sql_time : ℕ
  pub ipaddr : Text
  pub kbytes : ℕ
  pub status : ℕ
  pub userid : ℕ
  pub user_agent : ℕ
  pub referer : ℕ
  pub group : ℕ
  pub apicall_count : ℕ
  pub apicall_time : ℕ
  pub country_code : Text
  pub city : ℕ
  pub x_type : ℕ
  pub login : ℕ
  pub desc : ℕ
  pub web_hash : ℕ
  pub web_time : ℕ
  pub has_dump : ℕ
  pub thread_name_hash : ℕ
  pub text1 : Text
  pub text2 : Text
  pub queuing_host_hash : ℕ
  pub queuing_time : ℕ
  pub queuing2nd_host_hash : ℕ
  pub queuing2nd_time : ℕ
  pub text3 : Text
  pub text4 : Text
  pub text5 : Text
  pub profile_count : ℕ
  pub b3_mode : Bool
  pub profile_size : ℕ
  pub discard_type : ℕ
  pub ignore_global_consequent_sampling : Bool

pub record XlogColumns : Type 0 where
  pub txid : List Text
  pub gxid : List Text
  pub caller : List Text
  pub end_time : List ℕ
  pub elapsed : List ℕ
  pub obj_hash : List ℕ
  pub service : List ℕ
  pub error : List ℕ
  pub x_type : List ℕ
  pub cpu : List ℕ
  pub sql_count : List ℕ
  pub sql_time : List ℕ
  pub apicall_count : List ℕ
  pub apicall_time : List ℕ
  pub ipaddr : List Text
  pub kbytes : List ℕ
  pub thread_name_hash : List ℕ

abbrev pub xlog_pack_to_sxlog : XlogPack → SXlog
xlog_pack_to_sxlog p = record {
  txid = p.txid;
  gxid = p.gxid;
  caller = p.caller;
  end_time = p.end_time;
  elapsed = p.elapsed;
  obj_hash = p.obj_hash;
  service = p.service;
  error = p.error;
  x_type = p.x_type;
  cpu = p.cpu;
  sql_count = p.sql_count;
  sql_time = p.sql_time;
  api_call_count = p.apicall_count;
  api_call_time = p.apicall_time;
  ip_addr = p.ipaddr;
  alloc_k_bytes = p.kbytes;
  thread_name_hash = p.thread_name_hash;
}

-- A row of the loop; `none` where a column is too short, whose field would be `undefined`.
abbrev pub row : XlogColumns → ℕ → Option SXlog
row c i = do
  txid ← get_elem? c.txid i
  gxid ← get_elem? c.gxid i
  caller ← get_elem? c.caller i
  end_time ← get_elem? c.end_time i
  elapsed ← get_elem? c.elapsed i
  obj_hash ← get_elem? c.obj_hash i
  service ← get_elem? c.service i
  error ← get_elem? c.error i
  x_type ← get_elem? c.x_type i
  cpu ← get_elem? c.cpu i
  sql_count ← get_elem? c.sql_count i
  sql_time ← get_elem? c.sql_time i
  apicall_count ← get_elem? c.apicall_count i
  apicall_time ← get_elem? c.apicall_time i
  ipaddr ← get_elem? c.ipaddr i
  kbytes ← get_elem? c.kbytes i
  thread_name_hash ← get_elem? c.thread_name_hash i
  some (record {
    txid = txid;
    gxid = gxid;
    caller = caller;
    end_time = end_time;
    elapsed = elapsed;
    obj_hash = obj_hash;
    service = service;
    error = error;
    x_type = x_type;
    cpu = cpu;
    sql_count = sql_count;
    sql_time = sql_time;
    api_call_count = apicall_count;
    api_call_time = apicall_time;
    ip_addr = ipaddr;
    alloc_k_bytes = kbytes;
    thread_name_hash = thread_name_hash;
  })

-- The loop from `i`, with `k` rounds left.
abbrev pub rows_from : XlogColumns → ℕ → ℕ → List (Option SXlog)
rows_from c i zero = []
rows_from c i (suc k) = row c i ∷ rows_from c (suc i) k

unfoldable pub xlog_columns_to_sxlogs : XlogColumns → List (Option SXlog)
xlog_columns_to_sxlogs c = rows_from c 0 (length c.end_time)

unfoldable pub columns_of : List XlogPack → XlogColumns
columns_of rows = record {
  txid = map (λ p. p.txid) rows;
  gxid = map (λ p. p.gxid) rows;
  caller = map (λ p. p.caller) rows;
  end_time = map (λ p. p.end_time) rows;
  elapsed = map (λ p. p.elapsed) rows;
  obj_hash = map (λ p. p.obj_hash) rows;
  service = map (λ p. p.service) rows;
  error = map (λ p. p.error) rows;
  x_type = map (λ p. p.x_type) rows;
  cpu = map (λ p. p.cpu) rows;
  sql_count = map (λ p. p.sql_count) rows;
  sql_time = map (λ p. p.sql_time) rows;
  apicall_count = map (λ p. p.apicall_count) rows;
  apicall_time = map (λ p. p.apicall_time) rows;
  ipaddr = map (λ p. p.ipaddr) rows;
  kbytes = map (λ p. p.kbytes) rows;
  thread_name_hash = map (λ p. p.thread_name_hash) rows;
}
