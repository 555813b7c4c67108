-- ===== src/Db/Oracle/Session.antt =====
-- What src/db/oracle/OracleConnection.c does with a connection. The position of an error in a statement,
-- which is fetched for a debug line alone, is left out.
pub mod Handles
use libzdb.Prelude.{
  ℕ, Bool, true, false, not, ◌++◌, Option, some, none, Text, Result, ok, err, assert_exception,
  if◌then◌else◌, drop, ◌⊎◌, inl, inr,
}
use libzdb.Prelude.Int.{ℤ, pos, negsuc, ltb_ℤ}
use libzdb.Util.Str.{lit, is_equal, parse_int}
use libzdb.Util.StringBuffer
use libzdb.Util.StringBuffer.{StringBuffer, trim, prepare4oracle, to_string}
use libzdb.Net.Url.{Url, parameter}
use libzdb.Db.Delegate.{TransactionType}
use libzdb.Db.Oracle.Adapter.{Oci, Status, Isolation, is_success, is_fine, message, error_buffer}
use libzdb.Db.Oracle.Watchdog.{Timer, rounds, arm, disarm}
use libzdb.Db.Oracle.Columns.{Rows}
use libzdb.Db.Oracle.Columns
use libzdb.Db.Oracle.Prepared.{Prepared}
use libzdb.Db.Oracle.Prepared as Statement
use libzdb.Db.Oracle.Connecting.{Session, get_last_error}

-- The flag of a transaction. The default is READONLY.
pub isolation : TransactionType → Isolation
isolation TransactionType.serializable = Isolation.serializable
isolation type = Isolation.readonly

module _ (q : Oci) where
  -- A call of which the status is kept.
  abbrev keep : Session q → Status × q.World → Bool × Session q × q.World
  keep C (status, w) = (is_success status, record C { last_error = status }, w)

  pub ping : Session q → q.World → Bool × Session q × q.World
  ping C w = keep C (q.ping C.svc C.err w)

  -- Without a timeout the watchdog ends: it sees no service until it is joined.
  pub set_query_timeout : Session q → ℤ → q.World → Result (Unit {0}) × Session q × q.World
  set_query_timeout C ms w =
      let timer = C.timer in
      let D = record C { timer = record timer { timeout = ms } } in
      let (made, created) = q.thread_create w in
      if ltb_ℤ ms (pos 0) then (err assert_exception, C, w) else elim C.watchdog [
        | none ↦
            if ltb_ℤ (pos 0) ms
            then (ok tt, record D { watchdog = some made }, created)
            else (ok tt, D, w)
        | some t ↦
            if ltb_ℤ (pos 0) ms
            then (ok tt, D, w)
            else (ok tt, record D { watchdog = none }, q.thread_join t w)
      ]

  -- ORACLE_TRANSACTION_PERIOD is 10. The handle of transactions is made by the first.
  pub begin_transaction_type : Session q → TransactionType → q.World → Bool × Session q × q.World
  begin_transaction_type C type w =
      let start : Session q → q.World → Bool × Session q × q.World =
        λ D v. keep D (q.trans_start D.svc D.err 10 (isolation type) v) in
      elim C.txnhp [
        | some t ↦ start C w
        | none ↦
            let ((status, txn), w1) = q.alloc_txn C.env w in
            let D = record C { last_error = status; txnhp = txn } in
            if is_success status
            then start D (q.set_transaction D.svc D.txnhp D.err w1).1
            else (false, D, w1)
      ]

  pub commit : Session q → q.World → Bool × Session q × q.World
  commit C w = keep C (q.trans_commit C.svc C.err w)

  pub rollback : Session q → q.World → Bool × Session q × q.World
  rollback C w = keep C (q.trans_rollback C.svc C.err w)

  pub last_row_id : Session q → ℤ
  last_row_id C = negsuc 0

  pub rows_changed : Session q → ℤ
  rows_changed C = pos C.rows_changed

  -- The statement in the scratch buffer, trimmed; and with its parameters numbered.
  pub trimmed : Text → Option Text
  trimmed sql = elim (StringBuffer.new q.junk sql) [
    | none ↦ none
    | some S ↦ some (to_string (trim q.junk S))
  ]

  pub numbered : Text → Option (Result Text)
  numbered sql = elim (StringBuffer.new q.junk sql) [
    | none ↦ none
    | some S ↦ elim (prepare4oracle q.junk (trim q.junk S)) [
      | none ↦ none
      | some (err e) ↦ some (err e)
      | some (ok (n, Q)) ↦ some (ok (to_string Q))
    ]
  ]

  -- The statement, if it could be prepared.
  pub build : Session q → Text → q.World → Option (Option q.Stmt) × Session q × q.World
  build C sql w =
      let ((made, stmt), w1) = q.alloc_stmt C.env w in
      let (prepared, w2) = q.stmt_prepare stmt C.err sql w1 in
      let D = record C { last_error = prepared } in
      if is_fine made
      then if is_fine prepared then (some stmt, D, w2) else (none, D, q.free_stmt stmt w2)
      else (none, record C { last_error = made }, w1)

  -- Its execution with the watchdog, and then the number of rows; a statement that fails is freed.
  pub run : ℕ → Session q → Option q.Stmt → q.World → Bool × Session q × q.World
  unfolding rounds arm disarm get_last_error
  run iterations C stmt w =
      let ((status, ticks), w1) = q.stmt_execute C.svc stmt C.err iterations w in
      let timer = disarm (rounds ticks (arm C.timer)).1 in
      let D = record C { timer = timer; last_error = status } in
      let (counted, count) = q.row_count stmt C.err w1 in
      let E = record D { last_error = counted; rows_changed = count } in
      if is_fine status
      then (true, if is_fine counted then E else (get_last_error q E w1).1, w1)
      else (false, (get_last_error q D w1).1, q.free_stmt stmt w1)

  -- `_execute` with the statement trimmed.
  pub execute_trimmed : Session q → Text → q.World → Bool × Session q × q.World
  unfolding build run
  execute_trimmed C sql w =
      let (stmt, D, w1) = build (record C { rows_changed = 0 }) sql w in
      elim stmt [
        | none ↦ (false, D, w1)
        | some s ↦
            let (ran, E, w2) = run 1 D s w1 in
            if ran then (is_success E.last_error, E, q.free_stmt s w2) else (false, E, w2)
      ]

  -- `sql` is the statement with its arguments put in.
  pub execute : Session q → Text → q.World → Option (Bool × Session q × q.World)
  unfolding trimmed execute_trimmed
  execute C sql w = elim (trimmed sql) [ none ↦ none | some t ↦ some (execute_trimmed C t w) ]

  -- The rows, which own the statement, if it could be run, given the connection's maximum of rows and its
  -- fetch size.
  pub query_trimmed :
      ℤ → ℤ → Session q → Text → q.World → Result (Option (Rows q)) × Session q × q.World
  unfolding build run
  query_trimmed max_rows fetch_size C sql w =
      let (stmt, D, w1) = build (record C { rows_changed = 0 }) sql w in
      elim stmt [
        | none ↦ (ok none, D, w1)
        | some s ↦
            let (ran, E, w2) = run 0 D s w1 in
            let (made, w3) = Columns.new q max_rows fetch_size s E.env E.usr E.err E.svc true w2 in
            let result : Result (Option (Rows q)) = elim made [
              | err e ↦ err e
              | ok R ↦ ok (some R)
            ] in
            if ran then (result, E, w3) else (ok none, E, w2)
      ]

  pub execute_query :
      ℤ → ℤ → Session q → Text → q.World → Option (Result (Option (Rows q)) × Session q × q.World)
  unfolding trimmed query_trimmed
  execute_query max_rows fetch_size C sql w = elim (trimmed sql) [
    | none ↦ none
    | some t ↦ some (query_trimmed max_rows fetch_size C t w)
  ]

  -- `_prepareStatement` with the parameters numbered, given the connection's timeout of queries.
  pub prepare_numbered :
      ℤ → Session q → Text → q.World → Result (Option (Prepared q)) × Session q × q.World
  unfolding build
  prepare_numbered timeout C sql w =
      let (stmt, D, w1) = build C sql w in
      elim stmt [
        | none ↦ (ok none, D, w1)
        | some s ↦
            let (made, w2) = Statement.new q timeout s D.env D.usr D.err D.svc w1 in
            let result : Result (Option (Prepared q)) = elim made [
              | err e ↦ err e
              | ok P ↦ ok (some P)
            ] in
            (result, D, w2)
      ]

  pub prepare_statement :
      ℤ → Session q → Text → q.World → Option (Result (Option (Prepared q)) × Session q × q.World)
  unfolding numbered prepare_numbered
  prepare_statement timeout C sql w = elim (numbered sql) [
    | none ↦ none
    | some (err e) ↦ some (err e, C, w)
    | some (ok t) ↦ some (prepare_numbered timeout C t w)
  ]
