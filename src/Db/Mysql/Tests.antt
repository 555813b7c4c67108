-- ===== src/Db/Mysql/Tests.antt =====
-- The theorems about the driver for MySQL, with a client library that answers with rows of one column; its
-- world counts the calls.
use libzdb.Prelude.{
  ℕ, ◌+◌, ◌≤◌, ◌<◌, ◌≡◌, refl, true, false, [], ◌∷◌, some, ok, if◌then◌else◌, arith, length,
}
use libzdb.Prelude.Int.{pos}
use libzdb.Util.Str.{lit}
use libzdb.Db.Delegate.{Tm}
use libzdb.Db.Mysql.Adapter.{Mysql, Column}
use libzdb.Db.Mysql.Rows.{Rows, column, ensure_capacity, next}
use libzdb.Db.Mysql.Rows.Room.{IsRoomy, KeepsSize, ensure_capacity-IsRoomy}
use libzdb.Db.Mysql.Rows.Limit.{next-limit}

abbrev epoch : Tm
epoch = record {
  year = pos 70;
  month = pos 0;
  day = pos 1;
  hour = pos 0;
  minute = pos 0;
  second = pos 0;
}

abbrev client : Mysql
client = record {
  World = ℕ;
  Db = Unit {0};
  Stmt = Unit {0};
  Meta = Unit {0};
  Double = ℕ;
  out_of_memory = 2008;
  data_truncated = 101;
  multi_statements = 65536;
  compress = 32;
  init = λ w. (some tt, w + 1);
  options = λ d s w. w + 1;
  real_connect = λ d host user password database port socket flags w. (true, w + 1);
  close = λ d w. w + 1;
  error = λ d w. [];
  errno = λ d w. 0;
  ping = λ d w. (0, w + 1);
  query = λ d t w. (0, w + 1);
  insert_id = λ d w. pos 0;
  affected_rows = λ d w. pos 0;
  stmt_init = λ d w. (some tt, w + 1);
  stmt_prepare = λ s t w. (0, w + 1);
  stmt_error = λ s w. [];
  stmt_close = λ s w. w + 1;
  stmt_param_count = λ s w. 0;
  stmt_bind_param = λ s ps w. (0, w + 1);
  stmt_cursor = λ s c w. w + 1;
  stmt_execute = λ s w. (0, w + 1);
  stmt_reset = λ s w. (0, w + 1);
  stmt_affected_rows = λ s w. pos 0;
  stmt_free_result = λ s w. w + 1;
  run_down = λ s w. w + 1;
  stmt_field_count = λ s w. 1;
  stmt_result_metadata = λ s w. (some tt, w + 1);
  free_meta = λ m w. w + 1;
  field_name = λ m i w. lit "id";
  stmt_bind_result = λ s cs w. (0, w + 1);
  stmt_prefetch_rows = λ s n w. (0, w + 1);
  stmt_fetch = λ s cs w. ((0, cs), w + 1);
  stmt_fetch_column = λ s i c w. ((0, c), w + 1);
  print_int = λ n. lit "7";
  gmtime = λ n. epoch;
  junk = 0;
}

client_keeps : KeepsSize client
client_keeps s i c w = (refl, refl, refl)

-- Three bytes were sent, and there was room for two.
abbrev cut : Column
cut = record {
  is_null = false;
  real_length = 3;
  buffer_length = 2;
  buffer = 49 ∷ 50 ∷ 0 ∷ [];
  name = lit "id";
}

-- Two rows of at most two were read.
abbrev rows : Rows client
rows = record {
  stop = false;
  keep = false;
  max_rows = pos 2;
  fetch_size = pos 100;
  last_error = 101;
  need_rebind = false;
  current_row = 2;
  column_count = 1;
  meta = some tt;
  stmt = tt;
  columns = cut ∷ [];
}

ensure_capacity-IsRoomy_example :
    let (r, S, w') = ensure_capacity client rows 0 1000 in
    IsRoomy (column client S 0)
    × (r ≡ ok tt → (column client S 0).real_length < length (column client S 0).buffer)
ensure_capacity-IsRoomy_example =
    ensure_capacity-IsRoomy client client_keeps rows 0 1000 (omega arith) (record { cells = refl })

next-limit_example :
    ((next client rows 1000).1.current_row ≤ 2)
    × (rows.current_row ≡ 2
        → ((next client rows 1000).0 ≡ ok false)
          × ((next client rows 1000).2
              ≡ (if rows.stop then 1000 else (client.stmt_reset rows.stmt 1000).1)))
next-limit_example = next-limit client 2 rows 1000 refl (omega arith) (omega arith)
