-- ===== src/Db/Sqlite/Tests.antt =====
-- The theorems about the driver for SQLite, with a database that is busy before the world has counted to
-- 1003.
use libzdb.Prelude.{
  ℕ, zero, suc, ◌+◌, ◌<◌, ◌≡◌, refl, true, false, [], some, none, ok, arith, ltb, if◌then◌else◌,
}
use libzdb.Prelude.Int.{pos}
use libzdb.Db.Delegate.{Tm}
use libzdb.Db.Sqlite.Adapter.{Sqlite, backoff, exec_or_backoff}
use libzdb.Db.Sqlite.Adapter.Retrying.{attempt, is_busy, exec_or_backoff-attempt}
use libzdb.Db.Sqlite.Session.{Session, free}
use libzdb.Db.Sqlite.Session.Closing.{before_close, stays_busy, free-before_close}

abbrev epoch : Tm
epoch = record {
  year = pos 70;
  month = pos 0;
  day = pos 1;
  hour = pos 0;
  minute = pos 0;
  second = pos 0;
}

-- The status of a call: 5 is that the database is busy.
abbrev status_at : ℕ → ℕ
status_at w = if ltb w 1003 then 5 else 0

abbrev library : Sqlite
library = record {
  World = ℕ;
  Stmt = Unit {0};
  Double = ℕ;
  Db = Unit {0};
  status_ok = 0;
  status_busy = 5;
  status_locked = 6;
  status_range = 25;
  status_row = 100;
  status_done = 101;
  type_integer = 1;
  type_null = 5;
  random = λ w. (7, w);
  usleep = λ n w. w + 1;
  sqlite3_step = λ s w. (status_at w, w + 1);
  sqlite3_reset = λ s w. (0, w + 1);
  sqlite3_finalize = λ s w. w + 1;
  sqlite3_changes = λ s w. pos 0;
  sqlite3_errmsg = λ s w. [];
  sqlite3_errstr = λ n. [];
  sqlite3_bind_text = λ s i t n w. (0, w + 1);
  sqlite3_bind_int = λ s i n w. (0, w + 1);
  sqlite3_bind_int64 = λ s i n w. (0, w + 1);
  sqlite3_bind_double = λ s i x w. (0, w + 1);
  sqlite3_bind_blob = λ s i t n w. (0, w + 1);
  sqlite3_bind_parameter_count = λ s w. pos 0;
  sqlite3_column_count = λ s w. pos 1;
  sqlite3_column_name = λ s i w. none;
  sqlite3_column_bytes = λ s i w. pos 0;
  sqlite3_column_type = λ s i w. 5;
  sqlite3_column_text = λ s i w. none;
  sqlite3_column_blob = λ s i w. none;
  sqlite3_column_int64 = λ s i w. pos 0;
  open_readwrite = 2;
  open_create = 4;
  open_fullmutex = 65536;
  open_nomutex = 32768;
  open_sharedcache = 131072;
  always_shared = false;
  sqlite3_open = λ t n w. ((0, tt), w + 1);
  sqlite3_close = λ d w. (status_at w, w + 1);
  sqlite3_exec = λ d t w. (0, w + 1);
  sqlite3_prepare = λ d t w. ((0, some tt), w + 1);
  sqlite3_busy_timeout = λ d n w. w + 1;
  sqlite3_last_insert_rowid = λ d w. pos 0;
  sqlite3_db_changes = λ d w. pos 0;
  sqlite3_db_errmsg = λ d w. [];
  pointer = λ n. [];
  gmtime = λ n. some epoch;
  to_timestamp = λ t. ok (pos 0);
  to_date_time = λ t tm. ok tm;
}

abbrev session : Session library
session = record { db = tt; last_error = 0; delegator = 1 }

stays : (i : ℕ) → i < 2 → stays_busy library tt i 1000 ≡ true
stays zero h = refl
stays (suc zero) h = refl
stays (suc (suc i)) h = absurd (omega arith)

free-before_close_example :
    free library 5 session 1000 ≡ some (library.sqlite3_close tt (before_close library tt 2 1000)).1
free-before_close_example = free-before_close library 5 2 session 1000 (omega arith) stays refl

retried : (i : ℕ) → i < 2 → is_busy library (λ r. r) (library.sqlite3_step tt) i 1000 ≡ true
unfolding backoff
retried zero h = refl
retried (suc zero) h = refl
retried (suc (suc i)) h = absurd (omega arith)

exec_or_backoff-attempt_example :
    exec_or_backoff library (λ r. r) (library.sqlite3_step tt) 1000
    ≡ attempt library (λ r. r) (library.sqlite3_step tt) 2 1000
unfolding backoff
exec_or_backoff-attempt_example =
    exec_or_backoff-attempt library (λ r. r) (library.sqlite3_step tt) 2 1000 (omega arith) retried
      refl
