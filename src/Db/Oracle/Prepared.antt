-- ===== src/Db/Oracle/Prepared.antt =====
-- src/db/oracle/OraclePreparedStatement.c. What is bound to a parameter is with the statement, so that of
-- the array of parameters its length is what is left.
use libzdb.Prelude.{
  ℕ, Bool, true, false, not, ◌&&◌, Option, some, none, Text, Result, ok, err, sql_exception,
  assert_exception, if◌then◌else◌,
}
use libzdb.Prelude.Int.{ℤ, pos, negsuc, ◌-ℤ◌, ltb_ℤ}
use libzdb.Util.Str.{lit}
use libzdb.Db.Delegate.{Tm, check_index}
use libzdb.Db.Oracle.Adapter.{Oci, Status, Bound, is_success, is_fine, get_last_error}
use libzdb.Db.Oracle.Watchdog.{Timer, rounds, arm, disarm}
use libzdb.Db.Oracle.Columns.{Rows}
use libzdb.Db.Oracle.Columns

-- `struct PreparedStatementDelegate_T`, less the address of the connection.
pub record Prepared (q : Oci) : Type 0 where
  pub timer : Timer
  pub parameter_count : ℕ
  pub usr : Option q.Usr
  pub stmt : Option q.Stmt
  pub env : Option q.Env
  pub err : Option q.Err
  pub svc : Option q.Svc
  pub last_error : Status
  pub watchdog : Option q.Thread
  pub rows_changed : ℕ

abbrev given : {A : Type 0} → Option A → Bool
given none = false
given (some a) = true

module _ (q : Oci) where
  abbrev pub Outcome : Type 0 → Type 0
  Outcome A = Result A × Prepared q × q.World

  -- `OraclePreparedStatement_new`, given the connection's timeout of queries.
  pub new :
      ℤ
      → Option q.Stmt
      → Option q.Env
      → Option q.Usr
      → Option q.Err
      → Option q.Svc
      → q.World
      → Result (Prepared q) × q.World
  new timeout stmt env usr e svc w =
      let (status, count) = q.bind_count stmt e w in
      let P : Prepared q = record {
        timer = record { timeout = timeout; countdown = pos 0; running = false };
        parameter_count = if is_fine status then count else 0;
        usr = usr;
        stmt = stmt;
        env = env;
        err = e;
        svc = svc;
        last_error = status;
        watchdog = none;
        rows_changed = 0;
      } in
      let (thread, w') = q.thread_create w in
      if given stmt && given env && given e && given svc
      then if ltb_ℤ (pos 0) timeout
        then (ok (record P { watchdog = some thread }), w')
        else (ok P, w)
      else (err assert_exception, w)

  -- The watchdog ends since there is no service any more.
  pub free : Prepared q → q.World → q.World
  free P w =
      let w' = q.free_stmt P.stmt w in elim P.watchdog [ none ↦ w' | some t ↦ q.thread_join t w' ]

  abbrev raise : {A : Type 0} → Prepared q → q.World → Outcome A
  raise P w = let (t, w') = get_last_error q P.last_error P.err w in (err (sql_exception t), P, w')

  -- The functions that set a parameter.
  abbrev at_parameter :
      Prepared q → ℤ → q.World → (q.World → Outcome (Unit {0})) → Outcome (Unit {0})
  at_parameter P index w set =
      elim (check_index (lit "Parameter index is out of range") index (pos P.parameter_count)) [
        | err e ↦ (err e, P, w)
        | ok i ↦ set w
      ]

  -- `OCIBindByPos` and what follows it.
  bind : Prepared q → ℤ → Bound q.Number q.Date q.Double → q.World → Outcome (Unit {0})
  bind P index value w =
      let (status, w') = q.bind_by_pos P.stmt P.err index value w in
      let D = record P { last_error = status } in
      if is_fine status then (ok tt, D, w') else raise D w'

  -- A size that is not positive is NULL.
  abbrev length_of : ℤ → ℤ
  length_of size = if ltb_ℤ (pos 0) size then size else pos 0

  pub set_string : Prepared q → ℤ → Option Text → ℤ → q.World → Outcome (Unit {0})
  unfolding bind
  set_string P index x size w =
      at_parameter P index w
        (bind P index (Bound.chars x (length_of size) (not (ltb_ℤ (pos 0) size))))

  pub set_timestamp : Prepared q → ℤ → ℤ → q.World → Outcome (Unit {0})
  unfolding bind
  set_timestamp P index time w = at_parameter P index w (λ v.
      let ((status, date), v1) = q.alloc_date P.env v in
      let D = record P { last_error = status } in
      let t = q.gmtime time in
      let parts : Tm = record t { year = t.year -ℤ negsuc 1899; month = t.month -ℤ negsuc 0 } in
      let v2 = q.date_construct P.usr P.err date parts v1 in
      let (checked, valid) = q.date_check P.usr P.err date v2 in
      if is_fine status
      then if is_success checked && valid
        then bind D index (Bound.date date) v2
        else (err (sql_exception (lit "Invalid date/time value")), D, v2)
      else raise D v1)

  pub set_int : Prepared q → ℤ → ℤ → q.World → Outcome (Unit {0})
  unfolding bind
  set_int P index x w = at_parameter P index w (bind P index (Bound.integer x))

  pub set_llong : Prepared q → ℤ → ℤ → q.World → Outcome (Unit {0})
  unfolding bind
  set_llong P index x w = at_parameter P index w (λ v.
      let (status, n) = q.number_from_int P.err x in
      let D = record P { last_error = status } in
      if is_success status then bind D index (Bound.number n) v else raise D v)

  pub set_double : Prepared q → ℤ → q.Double → q.World → Outcome (Unit {0})
  unfolding bind
  set_double P index x w = at_parameter P index w (bind P index (Bound.real x))

  pub set_blob : Prepared q → ℤ → Option Text → ℤ → q.World → Outcome (Unit {0})
  unfolding bind
  set_blob P index x size w =
      at_parameter P index w
        (bind P index (Bound.bytes x (length_of size) (not (ltb_ℤ (pos 0) size))))

  -- Both kinds of execution, with the watchdog: with one iteration or none.
  run : ℕ → Prepared q → q.World → Prepared q × q.World
  unfolding rounds arm disarm
  run iterations P w =
      let ((status, ticks), w') = q.stmt_execute P.svc P.stmt P.err iterations w in
      let timer = disarm (rounds ticks (arm P.timer)).1 in
      (record P { rows_changed = 0; timer = timer; last_error = status }, w')

  pub execute : Prepared q → q.World → Outcome (Unit {0})
  unfolding run
  execute P w =
      let (D, w') = run 1 P w in
      let (status, count) = q.row_count D.stmt D.err w' in
      let E = record D { last_error = status; rows_changed = count } in
      if is_fine D.last_error
      then if is_fine status then (ok tt, E, w') else raise E w'
      else raise D w'

  -- The rows of the statement, which they do not own, given the connection's maximum of rows and its fetch
  -- size.
  pub execute_query : ℤ → ℤ → Prepared q → q.World → Outcome (Rows q)
  unfolding run
  execute_query max_rows fetch_size P w =
      let (D, w') = run 0 P w in
      let (made, w'') = Columns.new q max_rows fetch_size D.stmt D.env D.usr D.err D.svc false w' in
      if is_fine D.last_error then (made, D, w'') else raise D w'

  pub rows_changed : Prepared q → ℤ
  rows_changed P = pos P.rows_changed

  pub parameter_count : Prepared q → ℤ
  parameter_count P = pos P.parameter_count
