-- ===== src/Db/Stub.antt =====
-- A small driver for the tests: its world is the clock, every call takes a second, and a query gives a
-- result set with the columns id and name.
use libzdb.Prelude.{ℕ, zero, suc, ◌+◌, Bool, true, false, List, [], ◌∷◌, Option, some, none, ok}
use libzdb.Prelude.Int.{ℤ, pos}
use libzdb.Util.Str.{lit}
use libzdb.Net.Url.{Url}
use libzdb.Db.Delegate.{System, Tm, Rop, ResultSet, Pop, Statement, Cop}
use libzdb.Db.Connection.{Connection}
use libzdb.Db.ConnectionPool.{ConnectionPool, Setting, PoolType}

abbrev epoch : Tm
epoch = record {
  year = pos 70;
  month = pos 0;
  day = pos 1;
  hour = pos 0;
  minute = pos 0;
  second = pos 0;
}

abbrev pub plain : System
plain = record {
  World = ℕ;
  ConnectionDelegate = Unit {0};
  StatementDelegate = Unit {0};
  ResultDelegate = Unit {0};
  now = λ w. w;
  Double = ℕ;
  zero_double = 0;
  strtod = λ t. some (0, true);
  to_timestamp = λ t. ok (pos 0);
  to_date_time = λ t. ok epoch;
}

abbrev column : ℤ → Option (List ℕ)
column (pos (suc zero)) = some (lit "id")
column (pos (suc (suc zero))) = some (lit "name")
column i = none

abbrev pub rop : Rop plain
rop = record {
  free = λ d w. w + 1;
  get_column_count = λ d w. pos 2;
  get_column_name = λ d i w. column i;
  get_column_size = λ d i w. (ok (pos 1), w);
  set_fetch_size = none;
  get_fetch_size = none;
  next = λ d w. (ok false, w);
  isnull = λ d i w. (ok false, w);
  get_string = λ d i w. (ok (some (lit "7")), w);
  get_blob = λ d i w. (ok (none, pos 0), w);
  get_timestamp = none;
  get_date_time = none;
}

abbrev pub result : ResultSet plain
result = record { op = rop; delegate = tt }

abbrev pub pop : Pop plain
pop = record {
  free = λ d w. w + 1;
  set_string = λ d i x n w. (ok tt, w);
  set_int = λ d i x w. (ok tt, w);
  set_llong = λ d i x w. (ok tt, w);
  set_double = λ d i x w. (ok tt, w);
  set_timestamp = λ d i x w. (ok tt, w);
  set_blob = λ d i x n w. (ok tt, w);
  execute = λ d w. (ok tt, w + 1);
  execute_query = λ d w. (ok (some result), w + 1);
  rows_changed = λ d w. ok (pos 0);
  parameter_count = λ d w. pos 0;
}

abbrev pub statement : Statement plain
statement = record { op = pop; result_set = some result; delegate = tt }

abbrev pub cop : Cop plain
cop = record {
  name = lit "stub";
  new =
      λ settings w. (ok record { delegate = some tt; message = none; fetch_size = pos 100 }, w + 1);
  free = λ d w. w + 1;
  ping = λ d w. (true, w + 1);
  set_query_timeout = none;
  begin_transaction_type = λ d type w. (true, w + 1);
  commit = λ d w. (true, w + 1);
  rollback = λ d w. (true, w + 1);
  last_row_id = λ d w. pos 0;
  rows_changed = λ d w. ok (pos 0);
  execute = λ d sql w. (ok true, w + 1);
  execute_query = λ d settings sql w. (ok (some result), w + 1);
  prepare_statement = λ d settings sql w. (ok (some statement), w + 1);
  get_last_error = λ d w. none;
}

abbrev pub url : Url
url = record {
  ip6 = false;
  port = pos 0;
  path = none;
  host = none;
  user = none;
  query = none;
  protocol = some (lit "stub");
  password = none;
  params = [];
}

abbrev pub connection : ℕ → Bool → Connection plain
connection id available = record {
  id = id;
  op = cop;
  url = url;
  max_rows = pos 10;
  fetch_size = pos 100;
  is_available = available;
  query_timeout = pos 0;
  prepared = [];
  in_transaction = 1;
  fetch_size_default = pos 100;
  last_accessed_time = 0;
  result_set = some result;
  delegate = tt;
}

-- Addresses that are in use are skipped.
abbrev pub above : List ℕ → ℕ
above [] = 0
above (x ∷ xs) = x + 1 + above xs

abbrev pub setting : Setting plain
setting = record { cops = cop ∷ []; malloc = above }

abbrev pub pool_of : List (Connection plain) → ConnectionPool plain
pool_of cs = record {
  url = url;
  filled = true;
  do_sweep = true;
  error = none;
  pool = cs;
  reaper = true;
  sweep_interval = 60;
  max_connections = 3;
  stopped = false;
  connection_timeout = 90;
  initial_connections = 1;
  type = PoolType.no_type;
  locked = false;
}

-- Not started, and with one connection lent and one available.
abbrev pub unstarted : ConnectionPool plain
unstarted = record (pool_of []) { filled = false; stopped = true }

abbrev pub half : ConnectionPool plain
half = pool_of (connection 1 false ∷ connection 2 true ∷ [])
