-- ===== src/Columns/Samples.antt =====
-- A row with an id and an end, for the tests.
use nscouter.Base.{ℕ, false, [], ◌∷◌, nat_eq, list_eq}
use nscouter.Columns.{XlogPack}

abbrev pub pack_of : ℕ → ℕ → XlogPack
pack_of id end = record {
  end_time = end;
  obj_hash = 0;
  service = 0;
  txid = id ∷ [];
  caller = [];
  gxid = [];
  elapsed = 0;
  error = 0;
  cpu = 0;
  sql_count = 0;
  sql_time = 0;
  ipaddr = [];
  kbytes = 0;
  status = 0;
  userid = 0;
  user_agent = 0;
  referer = 0;
  group = 0;
  apicall_count = 0;
  apicall_time = 0;
  country_code = [];
  city = 0;
  x_type = 0;
  login = 0;
  desc = 0;
  web_hash = 0;
  web_time = 0;
  has_dump = 0;
  thread_name_hash = 0;
  text1 = [];
  text2 = [];
  queuing_host_hash = 0;
  queuing_time = 0;
  queuing2nd_host_hash = 0;
  queuing2nd_time = 0;
  text3 = [];
  text4 = [];
  text5 = [];
  profile_count = 0;
  b3_mode = false;
  profile_size = 0;
  discard_type = 0;
  ignore_global_consequent_sampling = false;
}
