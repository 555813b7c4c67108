-- ===== src/Db/Postgresql/Prepared.antt =====
-- src/db/postgresql/PostgresqlPreparedStatement.c. The arrays `paramValues`, `paramLengths` and
-- `paramFormats` are one list of parameters; a value that is printed into `params` is kept as the
-- text that it is.
use libzdb.Prelude.{
  ℕ, List, Option, some, none, Text, ◌++◌, Result, ok, err, sql_exception, ◌==◌, if◌then◌else◌,
  take, set, replicate, length,
}
use libzdb.Prelude.Int.{ℤ, pos, negsuc}
use libzdb.Util.Str.{lit, parse_llong}
use libzdb.Db.Delegate.{check_index}
use libzdb.Db.Postgresql.Adapter.{Libpq, Parameter}
use libzdb.Db.Postgresql.Rows.{Rows}
use libzdb.Db.Postgresql.Rows

-- `struct PreparedStatementDelegate_T`; of the connection, its address.
pub record Prepared (q : Libpq) : Type 0 where
  pub last_error : ℕ
  pub stmt : Text
  pub db : q.Conn
  pub res : Option q.Res
  pub parameters : List Parameter
  pub delegator : ℕ

abbrev out_of_range : Text
out_of_range = lit "Parameter index is out of range"

-- What CALLOC leaves.
abbrev pub unbound : Parameter
unbound = record { value = none; length = pos 0; format = 0 }

-- A text parameter, whose length is not looked at.
abbrev pub as_text : Text → Parameter
as_text t = record { value = some t; length = pos 0; format = 0 }

module _ (q : Libpq) where
  pub new : ℕ → q.Conn → Text → ℕ → Prepared q
  new delegator db stmt count = record {
    last_error = q.command_ok;
    stmt = stmt;
    db = db;
    res = none;
    parameters = replicate count unbound;
    delegator = delegator;
  }

  -- `snprintf` into the 256 cells of `stmt` cuts the name.
  pub free : Prepared q → q.World → q.World
  free P w =
      let sql = take 255 (lit "DEALLOCATE \"" ++ (P.stmt ++ lit "\";")) in
      let (r, w') = q.exec P.db sql w in q.clear P.res (q.clear r w')

  pub parameter_count : Prepared q → ℤ
  parameter_count P = pos (length P.parameters)

  -- The functions that set a parameter.
  pub assign : Prepared q → ℤ → Parameter → Result (Prepared q)
  assign P index x = elim (check_index out_of_range index (pos (length P.parameters))) [
    | err e ↦ err e
    | ok (negsuc i) ↦ ok P
    | ok (pos i) ↦ ok (record P { parameters = set P.parameters i x })
  ]

  pub set_string : Prepared q → ℤ → Option Text → ℤ → Result (Prepared q)
  set_string P index x size = assign P index (record { value = x; length = size; format = 0 })

  -- The 65 cells of `param_t` are printed into with a bound of 64.
  pub set_int : Prepared q → ℤ → ℤ → Result (Prepared q)
  set_int P index x = assign P index (as_text (take 63 (q.print_int x)))

  pub set_llong : Prepared q → ℤ → ℤ → Result (Prepared q)
  set_llong P index x = assign P index (as_text (take 63 (q.print_int x)))

  pub set_double : Prepared q → ℤ → q.Double → Result (Prepared q)
  set_double P index x = assign P index (as_text (take 63 (q.print_double x)))

  pub set_timestamp : Prepared q → ℤ → ℤ → Result (Prepared q)
  set_timestamp P index x = assign P index (as_text (q.time_to_string x))

  pub set_blob : Prepared q → ℤ → Option Text → ℤ → Result (Prepared q)
  set_blob P index x size = assign P index (record { value = x; length = size; format = 1 })

  -- `PQexecPrepared` and its status.
  abbrev run : Prepared q → q.World → Prepared q × q.World
  run P w =
      let (r, w') = q.exec_prepared P.db P.stmt P.parameters (q.clear P.res w) in
      let status : ℕ = elim r [ none ↦ q.fatal_error | some x ↦ q.result_status (some x) w' ] in
      (record P { res = r; last_error = status }, w')

  pub execute : Prepared q → q.World → Result (Unit {0}) × Prepared q × q.World
  execute P w =
      let (Q, w') = run P w in
      let message = q.result_error_message Q.res w' in
      (if Q.last_error == q.command_ok then ok tt else err (sql_exception message), Q, w')

  -- The rows of the result, given the connection's maximum of rows. Without a result the status is not
  -- the one of rows.
  pub execute_query : ℤ → Prepared q → q.World → Result (Rows q) × Prepared q × q.World
  execute_query max_rows P w =
      let (Q, w') = run P w in
      let failed : Result (Rows q) = err (sql_exception (q.result_error_message Q.res w')) in
      let rows : Result (Rows q) = elim Q.res [
        | none ↦ failed
        | some r ↦ ok (Rows.new q max_rows r w')
      ] in
      (if Q.last_error == q.tuples_ok then rows else failed, Q, w')

  pub rows_changed : Prepared q → q.World → Result ℤ
  rows_changed P w = elim (q.cmd_tuples P.res w) [
    | none ↦ ok (pos 0)
    | some t ↦ parse_llong (some t)
  ]
