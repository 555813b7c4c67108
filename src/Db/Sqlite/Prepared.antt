-- ===== src/Db/Sqlite/Prepared.antt =====
-- src/db/sqlite/SQLitePreparedStatement.c
use libzdb.Prelude.{
  ℕ, true, ◌++◌, Option, Text, Result, ok, err, sql_exception, ◌==◌, if◌then◌else◌,
}
use libzdb.Prelude.Int.{ℤ}
use libzdb.Util.Str.{lit}
use libzdb.Db.Sqlite.Adapter.{Sqlite, step}
use libzdb.Db.Sqlite.Rows.{Rows}
use libzdb.Db.Sqlite.Rows

-- `struct PreparedStatementDelegate_T`; of the connection, its address.
pub record Prepared (q : Sqlite) : Type 0 where
  pub last_error : ℕ
  pub stmt : q.Stmt
  pub delegator : ℕ

abbrev pub Outcome : Sqlite → Type 0 → Type 0
Outcome q A = Result A × Prepared q × q.World

module _ (q : Sqlite) where
  pub new : ℕ → q.Stmt → Prepared q
  new delegator stmt = record { last_error = q.status_ok; stmt = stmt; delegator = delegator }

  pub free : Prepared q → q.World → q.World
  free P w = q.sqlite3_finalize P.stmt w

  -- The functions that set a parameter: the statement is reset, then the value is bound.
  abbrev bind : Prepared q → (q.World → ℕ × q.World) → q.World → Outcome q (Unit {0})
  bind P call w =
      let (ignored, reset) = q.sqlite3_reset P.stmt w in
      let (status, w') = call reset in
      let Q = record P { last_error = status } in
      if status == q.status_range
      then (err (sql_exception (lit "Parameter index is out of range")), Q, w')
      else (ok tt, Q, w')

  pub set_string : Prepared q → ℤ → Option Text → ℤ → q.World → Outcome q (Unit {0})
  set_string P i x size w = bind P (q.sqlite3_bind_text P.stmt i x size) w

  pub set_int : Prepared q → ℤ → ℤ → q.World → Outcome q (Unit {0})
  set_int P i x w = bind P (q.sqlite3_bind_int P.stmt i x) w

  pub set_llong : Prepared q → ℤ → ℤ → q.World → Outcome q (Unit {0})
  set_llong P i x w = bind P (q.sqlite3_bind_int64 P.stmt i x) w

  pub set_timestamp : Prepared q → ℤ → ℤ → q.World → Outcome q (Unit {0})
  set_timestamp P i x w = bind P (q.sqlite3_bind_int64 P.stmt i x) w

  pub set_double : Prepared q → ℤ → q.Double → q.World → Outcome q (Unit {0})
  set_double P i x w = bind P (q.sqlite3_bind_double P.stmt i x) w

  pub set_blob : Prepared q → ℤ → Option Text → ℤ → q.World → Outcome q (Unit {0})
  set_blob P i x size w = bind P (q.sqlite3_bind_blob P.stmt i x size) w

  abbrev failure : Prepared q → q.World → Text
  failure P w =
      lit "Connection [" ++ (q.pointer P.delegator ++ (lit "] " ++ q.sqlite3_errmsg P.stmt w))

  pub execute : Prepared q → q.World → Outcome q (Unit {0})
  execute P w =
      let (status, w') = step q P.stmt w in
      let (cleared, w'') = q.sqlite3_reset P.stmt w' in
      let Q = record P { last_error = cleared } in
      if status == q.status_done
      then (ok tt, Q, w'')
      else if status == q.status_row
      then (
        err (sql_exception (lit "Select statement not allowed in PreparedStatement_execute()")),
        Q,
        w'',
      )
      else (err (sql_exception (failure Q w'')), Q, w'')

  -- The rows of the statement, which they do not own, given the connection's maximum of rows.
  pub execute_query : ℤ → Prepared q → q.World → Result (Rows q)
  execute_query max_rows P w =
      if P.last_error == q.status_ok
      then ok (Rows.new q max_rows P.stmt true w)
      else err (sql_exception (failure P w))

  pub rows_changed : Prepared q → q.World → ℤ
  rows_changed P w = q.sqlite3_changes P.stmt w

  pub parameter_count : Prepared q → q.World → ℤ
  parameter_count P w = q.sqlite3_bind_parameter_count P.stmt w
