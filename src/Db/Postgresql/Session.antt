-- ===== src/Db/Postgresql/Session.antt =====
-- src/db/postgresql/PostgresqlConnection.c. The scratch buffer `sb` is not part of the state: each
-- function that uses it sets it first.
pub mod Clearing
use libzdb.Prelude.{
  ℕ, suc, ◌%◌, ◌^◌, Bool, true, false, ◌||◌, List, [], ◌∷◌, ◌++◌, Option, some, none, Text, Result,
  ok, err, ◌==◌, if◌then◌else◌, drop, ◌⊎◌, inl, inr, ◌-◌,
}
use libzdb.Prelude.Int.{ℤ, pos, negsuc, ltb_ℤ}
use libzdb.Util.Str.{lit, is_equal, parse_int, parse_llong}
use libzdb.Util.StringBuffer
use libzdb.Util.StringBuffer.{StringBuffer, prepare4postgres, to_string}
use libzdb.Net.Url.{Url, parameter}
use libzdb.Db.Delegate.{TransactionType}
use libzdb.Db.Postgresql.Adapter.{Libpq}
use libzdb.Db.Postgresql.Rows.{Rows}
use libzdb.Db.Postgresql.Rows
use libzdb.Db.Postgresql.Prepared.{Prepared}
use libzdb.Db.Postgresql.Prepared

-- `struct ConnectionDelegate_T`; of the connection, its address.
pub record Session (q : Libpq) : Type 0 where
  pub db : q.Conn
  pub res : Option q.Res
  pub delegator : ℕ
  pub last_error : ℕ

-- An option of the connection string, in quotes and plain.
abbrev quoted : Text → Text → Text
quoted name value = name ++ (lit "='" ++ (value ++ lit "' "))

abbrev plain : Text → Text → Text
plain name value = name ++ (lit "=" ++ (value ++ lit " "))

-- Either what is said, or the error.
abbrev Said : Type 0
Said = Text ⊎ Text

abbrev or_else : Option Text → Option Text → Option Text
or_else none b = b
or_else (some t) b = some t

abbrev said_by : (Text → Said) → Said → Option Text → Said
said_by say missing none = missing
said_by say missing (some t) = say t

pub begin_sql : TransactionType → Text
begin_sql TransactionType.read_committed = lit "BEGIN TRANSACTION ISOLATION LEVEL READ COMMITTED;"
begin_sql TransactionType.repeatable_read = lit "BEGIN TRANSACTION ISOLATION LEVEL REPEATABLE READ;"
begin_sql TransactionType.serializable = lit "BEGIN TRANSACTION ISOLATION LEVEL SERIALIZABLE;"
begin_sql type = lit "BEGIN TRANSACTION;"

infixl 5 ◌and_then◌
-- What is said first, and then the rest.
abbrev ◌and_then◌ : Said → Said → Said
(inl t) and_then (inl u) = inl (t ++ u)
(inl t) and_then (inr e) = inr e
(inr e) and_then rest = inr e

module _ (q : Libpq) where
  -- The parts of the connection string, in the order of the code.
  user : Url → Said
  user U =
      said_by (λ t. inl (quoted (lit "user") t)) (inr (lit "no username specified in URL"))
        (or_else U.user (parameter U (lit "user")))

  password : Url → Said
  password U =
      let missing : Said = elim (parameter U (lit "unix-socket")) [
        | none ↦ inr (lit "no password specified in URL")
        | some t ↦ inl []
      ] in
      said_by (λ t. inl (quoted (lit "password") t)) missing
        (or_else U.password (parameter U (lit "password")))

  abbrev begins_with_slash : Text → Bool
  begins_with_slash [] = false
  begins_with_slash (c ∷ t) = c == b'/'

  host : Url → Said
  host U =
      let port : Said =
        if ltb_ℤ (pos 0) U.port
        then inl (plain (lit "port") (q.print_int U.port))
        else inr (lit "no port specified in URL") in
      let by_name : Said =
        said_by (λ t. inl (quoted (lit "host") t) and_then port)
          (inr (lit "no host specified in URL")) U.host in
      said_by
        (λ t.
          if begins_with_slash t
          then inl (quoted (lit "host") t)
          else inr (lit "invalid unix-socket directory"))
        by_name (parameter U (lit "unix-socket"))

  database : Url → Said
  database U =
      said_by (λ t. inl (quoted (lit "dbname") (drop 1 t)))
        (inr (lit "no database specified in URL")) U.path

  ssl : Url → Said
  ssl U =
      let required = is_equal (parameter U (lit "use-ssl")) (some (lit "true")) in
      inl (quoted (lit "sslmode") (if required then lit "require" else lit "disable"))

  timeout : Url → Said
  timeout U =
      let say : ℤ → Text = λ n. plain (lit "connect_timeout") (q.print_int n) in
      let given : Text → Said = λ t. elim (parse_int (some t)) [
        | ok n ↦ inl (say n)
        | err e ↦ inr (lit "invalid connect timeout value")
      ] in
      said_by given (inl (say (pos 3))) (parameter U (lit "connect-timeout"))

  application : Url → Said
  application U =
      said_by (λ t. inl (quoted (lit "application_name") t)) (inl [])
        (parameter U (lit "application-name"))

  -- The connection string, or what the URL lacks.
  pub connection_string : Url → Said
  connection_string U =
      user U
      and_then password U
      and_then host U
      and_then database U
      and_then ssl U
      and_then timeout U
      and_then application U

  -- `_doConnect`: what it leaves in `db`, and the message where there is no connection.
  pub do_connect : Url → q.World → (Option q.Conn × Option Text) × q.World
  do_connect U w = elim (connection_string U) [
    | inr e ↦ ((none, some e), w)
    | inl t ↦
        let (db, w') = q.connectdb t w in
        let message : Option Text =
          if q.is_connected db w' then none else some (q.error_message db w') in
        ((some db, message), w')
  ]

  -- `_new`, given the address of the connection; what `_free` does where there is no result.
  pub new : ℕ → Url → q.World → (Option (Session q) × Option Text) × q.World
  new delegator U w =
      let ((db, message), w') = do_connect U w in
      elim db [
        | none ↦ ((none, message), w')
        | some c ↦ elim message [
          | some e ↦ ((none, some e), q.finish c w')
          | none ↦ (
            (some record { db = c; res = none; delegator = delegator; last_error = 0 }, none),
            w',
          )
        ]
      ]

  pub free : Session q → q.World → q.World
  free C w =
      let cleared : q.World = elim C.res [ none ↦ w | some r ↦ q.clear (some r) w ] in
      q.finish C.db cleared

  pub ping : Session q → q.World → Bool
  ping C w = q.is_connected C.db w

  pub set_query_timeout : Session q → ℤ → q.World → q.World
  set_query_timeout C ms w =
      let sql = lit "SET statement_timeout TO " ++ (q.print_int ms ++ lit ";") in
      let (r, w') = q.exec C.db sql w in q.clear r w'

  -- A statement of which the status is kept, and not the result.
  abbrev run : Session q → Text → q.World → Bool × Session q × q.World
  run C sql w =
      let (r, w') = q.exec C.db sql w in
      let status = q.result_status r w' in
      (status == q.command_ok, record C { last_error = status }, q.clear r w')

  pub begin_transaction_type : Session q → TransactionType → q.World → Bool × Session q × q.World
  begin_transaction_type C type w = run C (begin_sql type) w

  pub commit : Session q → q.World → Bool × Session q × q.World
  commit C w = run C (lit "COMMIT TRANSACTION;") w

  pub rollback : Session q → q.World → Bool × Session q × q.World
  rollback C w = run C (lit "ROLLBACK TRANSACTION;") w

  pub last_row_id : Session q → q.World → ℤ
  last_row_id C w = q.oid_value C.res w

  pub rows_changed : Session q → q.World → Result ℤ
  rows_changed C w = elim (q.cmd_tuples C.res w) [
    | none ↦ ok (pos 0)
    | some t ↦ parse_llong (some t)
  ]

  -- The result before is cleared, and the one of the statement kept.
  abbrev run_kept : Session q → Text → q.World → Session q × q.World
  run_kept C sql w =
      let (r, w') = q.exec C.db sql (q.clear C.res w) in
      (record C { res = r; last_error = q.result_status r w' }, w')

  -- `sql` is the statement with its arguments put in.
  pub execute : Session q → Text → q.World → Bool × Session q × q.World
  execute C sql w = let (D, w') = run_kept C sql w in (D.last_error == q.command_ok, D, w')

  -- The rows of the result, given the connection's maximum of rows. Without a result the status is not
  -- the one of rows.
  pub execute_query : ℤ → Session q → Text → q.World → Option (Rows q) × Session q × q.World
  execute_query max_rows C sql w =
      let (D, w') = run_kept C sql w in
      let rows : Option (Rows q) = elim D.res [
        | none ↦ none
        | some r ↦ some (Rows.new q max_rows r w')
      ] in
      (if D.last_error == q.tuples_ok then rows else none, D, w')

  -- The statement with its parameters numbered, and how many they are: what StringBuffer_prepare4postgres
  -- makes of the buffer that it is put into.
  pub numbered : Text → Option (Result (ℕ × Text))
  numbered sql = elim (StringBuffer.new q.junk sql) [
    | none ↦ none
    | some S ↦ elim (prepare4postgres q.junk S) [
      | none ↦ none
      | some (err e) ↦ some (err e)
      | some (ok (n, Q)) ↦ some (ok (n, to_string Q))
    ]
  ]

  -- The name for the value of `kStatementID`.
  abbrev statement_name : ℕ → Text
  statement_name t =
      lit "__libzdb-"
      ++ q.print_int (if ltb_ℤ (pos t) (pos (2 ^ 31)) then pos t else negsuc (2 ^ 32 - suc t))

  abbrev Compiled : Type 0
  Compiled = Result (Option (Prepared q)) × Session q × ℕ × q.World

  -- `PQprepare` with the statement numbered.
  abbrev compile : Session q → ℕ → ℕ → Text → q.World → Compiled
  compile C next count sql w =
      let name = statement_name next in
      let (r, w') = q.prepare C.db name sql w in
      let status : ℕ = elim r [ none ↦ q.fatal_error | some x ↦ q.result_status (some x) w' ] in
      let D = record C { res = r; last_error = status } in
      let good = status == q.empty_query || status == q.command_ok || status == q.tuples_ok in
      let P = Prepared.new q C.delegator C.db name count in
      (ok (if good then some P else none), D, suc next % 2 ^ 32, w')

  -- The result before is cleared. `kStatementID` is an argument, and part of what is returned.
  pub prepare_statement : Session q → ℕ → Text → q.World → Option Compiled
  prepare_statement C next sql w =
      let cleared = q.clear C.res w in
      elim (numbered sql) [
        | none ↦ none
        | some (err e) ↦ some (err e, C, next, cleared)
        | some (ok (count, t)) ↦ some (compile C next count t cleared)
      ]

  pub get_last_error : Session q → q.World → Text
  get_last_error C w = elim C.res [
    | none ↦ lit "unknown error"
    | some r ↦ q.result_error_message (some r) w
  ]
