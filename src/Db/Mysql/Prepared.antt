-- ===== src/Db/Mysql/Prepared.antt =====
-- src/db/mysql/MysqlPreparedStatement.c. The arrays `bind` and `params` are one list of parameters.
use libzdb.Prelude.{
  ℕ, true, false, not, ◌||◌, List, Option, Text, Result, ok, err, sql_exception, ◌==◌,
  if◌then◌else◌, set, get_or, replicate, length,
}
use libzdb.Prelude.Int.{ℤ, pos, negsuc, ◌-ℤ◌, ltb_ℤ}
use libzdb.Util.Str.{lit}
use libzdb.Db.Delegate.{Tm, check_index}
use libzdb.Db.Mysql.Adapter.{Mysql, Parameter, Value, Cursor}
use libzdb.Db.Mysql.Rows.{Rows}
use libzdb.Db.Mysql.Rows

-- `struct PreparedStatementDelegate_T`
pub record Prepared (q : Mysql) : Type 0 where
  pub last_error : ℕ
  pub stmt : q.Stmt
  pub parameters : List (Parameter q.Double)

module _ (q : Mysql) where
  -- What CALLOC leaves.
  abbrev unbound : Parameter q.Double
  unbound = record { value = Value.no_value; is_null = false; length = pos 0 }

  pub new : q.Stmt → q.World → Prepared q
  new stmt w = record {
    last_error = 0;
    stmt = stmt;
    parameters = replicate (q.stmt_param_count stmt w) unbound;
  }

  pub free : Prepared q → q.World → q.World
  free P w = q.stmt_close P.stmt (q.run_down P.stmt (q.stmt_free_result P.stmt w))

  -- The functions that set a parameter.
  abbrev assign : Prepared q → ℤ → (Parameter q.Double → Parameter q.Double) → Result (Prepared q)
  assign P index change =
      elim (check_index (lit "Parameter index is out of range") index (pos (length P.parameters))) [
        | err e ↦ err e
        | ok (negsuc i) ↦ ok P
        | ok (pos i) ↦
            let x = change (get_or P.parameters i unbound) in
            ok (record P { parameters = set P.parameters i x })
      ]

  -- A value with a size: without one it is NULL.
  abbrev sized : Value q.Double → ℤ → Parameter q.Double → Parameter q.Double
  sized v size old =
      let given = ltb_ℤ (pos 0) size in
      record { value = v; is_null = not given; length = if given then size else pos 0 }

  abbrev unsized : Value q.Double → Parameter q.Double → Parameter q.Double
  unsized v old = record old { value = v; is_null = false }

  pub set_string : Prepared q → ℤ → Option Text → ℤ → Result (Prepared q)
  set_string P index x size = assign P index (sized (Value.string x) size)

  pub set_int : Prepared q → ℤ → ℤ → Result (Prepared q)
  set_int P index x = assign P index (unsized (Value.integer x))

  pub set_llong : Prepared q → ℤ → ℤ → Result (Prepared q)
  set_llong P index x = assign P index (unsized (Value.llong x))

  pub set_double : Prepared q → ℤ → q.Double → Result (Prepared q)
  set_double P index x = assign P index (unsized (Value.real x))

  pub set_timestamp : Prepared q → ℤ → ℤ → Result (Prepared q)
  set_timestamp P index x =
      let t = q.gmtime x in
      let parts : Tm = record t { year = t.year -ℤ negsuc 1899; month = t.month -ℤ negsuc 0 } in
      assign P index (unsized (Value.timestamp parts))

  pub set_blob : Prepared q → ℤ → Option Text → ℤ → Result (Prepared q)
  set_blob P index x size = assign P index (sized (Value.blob x) size)

  -- Both kinds of execution: the parameters are bound, if there are any, and the statement runs with a
  -- cursor or without.
  pub run : Cursor → Prepared q → q.World → Result (Unit {0}) × Prepared q × q.World
  run cursor P w =
      let none_given = length P.parameters == 0 in
      let (bound, wb) = q.stmt_bind_param P.stmt P.parameters w in
      let B = if none_given then P else record P { last_error = bound } in
      let w1 = if none_given then w else wb in
      let (status, w2) = q.stmt_execute P.stmt (q.stmt_cursor P.stmt cursor w1) in
      let D = record P { last_error = status } in
      if not (none_given || bound == 0)
      then (err (sql_exception (q.stmt_error P.stmt w1)), B, w1)
      else if status == 0
      then (ok tt, D, w2)
      else (err (sql_exception (q.stmt_error P.stmt w2)), D, w2)

  -- A statement that ran is reset.
  pub execute : Prepared q → q.World → Result (Unit {0}) × Prepared q × q.World
  unfolding run
  execute P w =
      let (r, D, w') = run Cursor.no_cursor P w in
      elim r [
        | err e ↦ (err e, D, w')
        | ok u ↦
            let (status, w'') = q.stmt_reset P.stmt w' in
            (ok tt, record D { last_error = status }, w'')
      ]

  -- The rows of the statement, which they do not own, given the connection's maximum of rows and its fetch
  -- size.
  pub execute_query : ℤ → ℤ → Prepared q → q.World → Result (Rows q) × Prepared q × q.World
  unfolding run
  execute_query max_rows rows P w =
      let (r, D, w') = run Cursor.read_only P w in
      elim r [
        | err e ↦ (err e, D, w')
        | ok u ↦
            let (made, R, w'') = Rows.new q max_rows rows P.stmt true w' in
            let result : Result (Rows q) = elim made [ err e ↦ err e | ok u ↦ ok R ] in
            (result, D, w'')
      ]

  pub rows_changed : Prepared q → q.World → ℤ
  rows_changed P w = q.stmt_affected_rows P.stmt w

  pub parameter_count : Prepared q → ℤ
  parameter_count P = pos (length P.parameters)
