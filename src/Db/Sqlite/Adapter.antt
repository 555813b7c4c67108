-- ===== src/Db/Sqlite/Adapter.antt =====
-- src/db/sqlite/SQLiteAdapter.c, as it is built without SQLITEUNLOCK: a call of sqlite3 is repeated for a
-- while where the database is busy.
pub mod Retrying
use libzdb.Prelude.{
  ℕ, zero, suc, ◌+◌, ◌*◌, ◌%◌, ◌^◌, Bool, ◌||◌, Option, Text, Result, ◌==◌, if◌then◌else◌,
}
use libzdb.Prelude.Int.{ℤ}
use libzdb.Db.Delegate.{Tm}

-- What the driver takes from sqlite3, libc and src/system/Time.re.
pub record Sqlite : Type 1 where
  pub World : Type 0
  pub Stmt : Type 0
  pub Double : Type 0
  pub Db : Type 0
  pub status_ok : ℕ
  pub status_busy : ℕ
  pub status_locked : ℕ
  pub status_range : ℕ
  pub status_row : ℕ
  pub status_done : ℕ
  pub type_integer : ℕ
  pub type_null : ℕ
  pub random : World → ℕ × World
  pub usleep : ℕ → World → World
  pub sqlite3_step : Stmt → World → ℕ × World
  pub sqlite3_reset : Stmt → World → ℕ × World
  pub sqlite3_finalize : Stmt → World → World
  pub sqlite3_changes : Stmt → World → ℤ
  pub sqlite3_errmsg : Stmt → World → Text
  pub sqlite3_errstr : ℕ → Text
  pub sqlite3_bind_text : Stmt → ℤ → Option Text → ℤ → World → ℕ × World
  pub sqlite3_bind_int : Stmt → ℤ → ℤ → World → ℕ × World
  pub sqlite3_bind_int64 : Stmt → ℤ → ℤ → World → ℕ × World
  pub sqlite3_bind_double : Stmt → ℤ → Double → World → ℕ × World
  pub sqlite3_bind_blob : Stmt → ℤ → Option Text → ℤ → World → ℕ × World
  pub sqlite3_bind_parameter_count : Stmt → World → ℤ
  pub sqlite3_column_count : Stmt → World → ℤ
  pub sqlite3_column_name : Stmt → ℤ → World → Option Text
  pub sqlite3_column_bytes : Stmt → ℤ → World → ℤ
  pub sqlite3_column_type : Stmt → ℤ → World → ℕ
  pub sqlite3_column_text : Stmt → ℤ → World → Option Text
  pub sqlite3_column_blob : Stmt → ℤ → World → Option Text
  pub sqlite3_column_int64 : Stmt → ℤ → World → ℤ
  pub open_readwrite : ℕ
  pub open_create : ℕ
  pub open_fullmutex : ℕ
  pub open_nomutex : ℕ
  pub open_sharedcache : ℕ
  pub always_shared : Bool
  pub sqlite3_open : Text → ℕ → World → (ℕ × Db) × World
  pub sqlite3_close : Db → World → ℕ × World
  pub sqlite3_exec : Db → Text → World → ℕ × World
  pub sqlite3_prepare : Db → Text → World → (ℕ × Option Stmt) × World
  pub sqlite3_busy_timeout : Db → ℤ → World → World
  pub sqlite3_last_insert_rowid : Db → World → ℤ
  pub sqlite3_db_changes : Db → World → ℤ
  pub sqlite3_db_errmsg : Db → World → Text
  pub pointer : ℕ → Text
  pub gmtime : ℤ → Option Tm
  pub to_timestamp : Option Text → Result ℤ
  pub to_date_time : Option Text → Tm → Result Tm

-- The width of the window that `_backoff` draws from: 2, 4, then 2 to the power of the step.
abbrev window : ℕ → ℕ
window zero = 2
window (suc zero) = 4
window (suc (suc n)) = 2 ^ (n + 2)

module _ (q : Sqlite) where
  -- `_backoff`, with a slot of 5100 microseconds
  unfoldable pub backoff : ℕ → q.World → q.World
  backoff step w = let (r, w') = q.random w in q.usleep (5100 * (r % window step)) w'

  abbrev pub busy : ℕ → Bool
  busy status = (status == q.status_busy) || (status == q.status_locked)

  -- `_exec_or_backoff`, of a call whose result has the status in it: the rounds that are left, the number
  -- of the round, and the last result.
  pub exec_from :
      {R : Type 0} → (R → ℕ) → (q.World → R × q.World) → ℕ → ℕ → R → q.World → R × q.World
  exec_from status call zero i last w = (last, w)
  exec_from status call (suc rounds) i last w =
      let (r, w') = call w in
      let again = exec_from status call rounds (suc i) r (backoff i w') in
      if busy (status r) then again else (r, w')

  -- Ten rounds, the first of which is always run.
  pub exec_or_backoff : {R : Type 0} → (R → ℕ) → (q.World → R × q.World) → q.World → R × q.World
  exec_or_backoff status call w =
      let (r, w') = call w in
      let again = exec_from status call 9 1 r (backoff 0 w') in
      if busy (status r) then again else (r, w')

  -- `zdb_sqlite3_step`
  pub step : q.Stmt → q.World → ℕ × q.World
  step stmt w = exec_or_backoff (λ r. r) (q.sqlite3_step stmt) w

  -- `zdb_sqlite3_exec`
  pub exec : q.Db → Text → q.World → ℕ × q.World
  exec db sql w = exec_or_backoff (λ r. r) (q.sqlite3_exec db sql) w

  -- `zdb_sqlite3_prepare_v2`
  pub prepare : q.Db → Text → q.World → (ℕ × Option q.Stmt) × q.World
  prepare db sql w = exec_or_backoff (λ r. r.0) (q.sqlite3_prepare db sql) w
