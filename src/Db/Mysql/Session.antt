-- ===== src/Db/Mysql/Session.antt =====
-- src/db/mysql/MysqlConnection.c, as it is built with version 8 or later of the client library.
use libzdb.Prelude.{
  ℕ, Bool, false, [], ◌++◌, Option, some, none, Text, Result, ok, err, ◌==◌, if◌then◌else◌, drop,
  ◌⊎◌, inl, inr,
}
use Prim.Native.Nat.{bit_or}
use libzdb.Prelude.Int.{ℤ, pos, ltb_ℤ}
use libzdb.Util.Str.{lit, is_equal, parse_int}
use libzdb.Net.Url.{Url, parameter}
use libzdb.Db.Delegate.{TransactionType}
use libzdb.Db.Mysql.Adapter.{
  Mysql, Setting, ssl_required, default_auth, connect_timeout, charset_name, reconnect, Cursor,
}
use libzdb.Db.Mysql.Rows.{Rows}
use libzdb.Db.Mysql.Rows
use libzdb.Db.Mysql.Prepared.{Prepared}
use libzdb.Db.Mysql.Prepared

-- `struct ConnectionDelegate_T`, less the address of the connection. The scratch buffer is the text that it
-- holds, since `_getLastError` shows it.
pub record Session (q : Mysql) : Type 0 where
  pub db : q.Db
  pub last_error : ℕ
  pub sb : Text

-- Where to connect.
pub record Target : Type 0 where
  pub host : Option Text
  pub user : Text
  pub password : Text
  pub database : Text
  pub port : ℤ
  pub socket : Option Text

abbrev or_else : Option Text → Option Text → Option Text
or_else none b = b
or_else (some t) b = some t

abbrev given : {A : Type 0} → Text → Option A → (A → Target ⊎ Text) → Target ⊎ Text
given missing none rest = inr missing
given missing (some a) rest = rest a

-- What `_doConnect` takes from the URL, or what the URL lacks.
pub target : Url → Target ⊎ Text
target U =
    let socket = parameter U (lit "unix-socket") in
    let host : Option Text = elim socket [ none ↦ U.host | some t ↦ some (lit "localhost") ] in
    given (lit "no username specified in URL") (or_else U.user (parameter U (lit "user"))) (λ user.
      given (lit "no password specified in URL") (or_else U.password (parameter U (lit "password")))
        (λ password. given (lit "no host specified in URL") host (λ h.
          if ltb_ℤ (pos 0) U.port
          then given (lit "no database specified in URL") U.path (λ path. inl record {
            host = some h;
            user = user;
            password = password;
            database = drop 1 path;
            port = U.port;
            socket = socket;
          })
          else inr (lit "no port specified in URL"))))

pub begin_sql : TransactionType → Text
begin_sql TransactionType.read_uncommitted =
    lit "SET TRANSACTION ISOLATION LEVEL READ UNCOMMITTED; START TRANSACTION;"
begin_sql TransactionType.read_committed =
    lit "SET TRANSACTION ISOLATION LEVEL READ COMMITTED; START TRANSACTION;"
begin_sql TransactionType.repeatable_read =
    lit "SET TRANSACTION ISOLATION LEVEL REPEATABLE READ; START TRANSACTION;"
begin_sql TransactionType.serializable =
    lit "SET TRANSACTION ISOLATION LEVEL SERIALIZABLE; START TRANSACTION;"
begin_sql type = lit "START TRANSACTION;"

module _ (q : Mysql) where
  -- The database, if there is a connection, the message, if there is none, and the fetch size that is set on
  -- the connection.
  pub record Opened : Type 0 where
    pub db : Option q.Db
    pub message : Option Text
    pub fetch_size : Option ℤ

  abbrev refused : Text → Opened
  refused message = record { db = none; message = some message; fetch_size = none }

  abbrev asked : Url → Text → Bool
  asked U name = is_equal (parameter U name) (some (lit "true"))

  -- `mysql_options` with a value that the URL may give.
  abbrev option : q.Db → Option Text → (Text → Setting) → q.World → q.World
  option db none setting w = w
  option db (some t) setting w = q.options db (setting t) w

  -- The last part of `_doConnect`: the fetch size is set before the connection is made.
  connect_with : q.Db → Target → ℕ → Option ℤ → q.World → Opened × q.World
  connect_with db T flags rows w =
      let (done, w') =
        q.real_connect db T.host T.user T.password T.database T.port T.socket flags w in
      if done
      then (record { db = some db; message = none; fetch_size = rows }, w')
      else (record { db = none; message = some (q.error db w'); fetch_size = rows }, q.close db w')

  -- The fetch size that the URL gives, if it does, and then the connection.
  fetch_and_connect : q.Db → Url → Target → ℕ → q.World → Result Opened × q.World
  unfolding connect_with
  fetch_and_connect db U T flags w = elim (parameter U (lit "fetch-size")) [
    | none ↦ let (o, w') = connect_with db T flags none w in (ok o, w')
    | some t ↦ elim (parse_int (some t)) [
      | err e ↦ (err e, w)
      | ok rows ↦
          let (o, w') = connect_with db T flags (some rows) w in
          if ltb_ℤ rows (pos 1)
          then (ok (refused (lit "invalid fetch-size")), q.close db w)
          else (ok o, w')
    ]
  ]

  -- The options, in the order of the code.
  set_options : q.Db → Url → Target → q.World → Result Opened × q.World
  unfolding fetch_and_connect
  set_options db U T w =
      let flags =
        if asked U (lit "compress")
        then bit_or q.multi_statements q.compress
        else q.multi_statements in
      let w1 = if asked U (lit "use-ssl") then q.options db ssl_required w else w in
      let w2 = option db (parameter U (lit "auth-plugin")) default_auth w1 in
      let seconds : Result ℤ = elim (parameter U (lit "connect-timeout")) [
        | none ↦ ok (pos 3)
        | some t ↦ parse_int (some t)
      ] in
      elim seconds [
        | err e ↦ (err e, w2)
        | ok n ↦
            let w3 = q.options db (connect_timeout n) w2 in
            let w4 = option db (parameter U (lit "charset")) charset_name w3 in
            fetch_and_connect db U T flags (q.options db reconnect w4)
      ]

  -- `_doConnect`. An option that is not a number throws.
  pub do_connect : Url → q.World → Result Opened × q.World
  unfolding set_options
  do_connect U w =
      let (db, w') = q.init w in
      elim db [
        | none ↦ (ok (refused (lit "unable to allocate mysql handler")), w')
        | some d ↦ elim (target U) [
          | inr e ↦ (ok (refused e), q.close d w')
          | inl T ↦ set_options d U T w'
        ]
      ]

  -- `_new`: the delegate and the message.
  pub new : Url → q.World → Result (Option (Session q) × Option Text) × q.World
  unfolding do_connect
  new U w =
      let (r, w') = do_connect U w in
      elim r [
        | err e ↦ (err e, w')
        | ok o ↦
            let session : Option (Session q) = elim o.db [
              | none ↦ none
              | some d ↦ some (record { db = d; last_error = 0; sb = [] })
            ] in
            (ok (session, o.message), w')
      ]

  pub free : Session q → q.World → q.World
  free C w = q.close C.db w

  pub ping : Session q → q.World → Bool × q.World
  ping C w = let (status, w') = q.ping C.db w in (status == 0, w')

  -- A statement of which the status is kept.
  abbrev run : Session q → Text → q.World → Bool × Session q × q.World
  run C sql w =
      let (status, w') = q.query C.db sql w in (status == 0, record C { last_error = status }, w')

  pub set_query_timeout : Session q → ℤ → q.World → Session q × q.World
  set_query_timeout C ms w =
      let sql = lit "SET SESSION MAX_EXECUTION_TIME=" ++ (q.print_int ms ++ lit ";") in
      let (done, D, w') = run (record C { sb = sql }) sql w in (D, w')

  pub begin_transaction_type : Session q → TransactionType → q.World → Bool × Session q × q.World
  begin_transaction_type C type w = run C (begin_sql type) w

  pub commit : Session q → q.World → Bool × Session q × q.World
  commit C w = run C (lit "COMMIT;") w

  pub rollback : Session q → q.World → Bool × Session q × q.World
  rollback C w = run C (lit "ROLLBACK;") w

  pub last_row_id : Session q → q.World → ℤ
  last_row_id C w = q.insert_id C.db w

  pub rows_changed : Session q → q.World → ℤ
  rows_changed C w = q.affected_rows C.db w

  -- `sql` is the statement with its arguments put in.
  pub execute : Session q → Text → q.World → Bool × Session q × q.World
  execute C sql w = run (record C { sb = sql }) sql w

  -- `_prepare`
  pub prepare : Session q → Text → q.World → Option q.Stmt × Session q × q.World
  prepare C sql w =
      let (stmt, w') = q.stmt_init C.db w in
      elim stmt [
        | none ↦ (none, record C { last_error = q.out_of_memory }, w')
        | some s ↦
            let (status, w'') = q.stmt_prepare s sql w' in
            let D = record C { last_error = status } in
            if status == 0
            then (some s, D, w'')
            else (none, record D { sb = q.stmt_error s w'' }, q.stmt_close s w'')
      ]

  -- The rows, if the statement could be run, given the connection's maximum of rows and its fetch size.
  pub execute_query :
      ℤ → ℤ → Session q → Text → q.World → Result (Option (Rows q)) × Session q × q.World
  unfolding prepare
  execute_query max_rows rows C sql w =
      let (stmt, D, w') = prepare (record C { sb = sql }) sql w in
      elim stmt [
        | none ↦ (ok none, D, w')
        | some s ↦
            let (status, w1) = q.stmt_execute s (q.stmt_cursor s Cursor.read_only w') in
            let E = record D { last_error = status } in
            let (made, R, w2) = Rows.new q max_rows rows s false w1 in
            let result : Result (Option (Rows q)) = elim made [
              | err e ↦ err e
              | ok u ↦ ok (some R)
            ] in
            if status == 0
            then (result, E, w2)
            else (ok none, record E { sb = q.stmt_error s w1 }, q.stmt_close s w1)
      ]

  pub prepare_statement : Session q → Text → q.World → Option (Prepared q) × Session q × q.World
  unfolding prepare
  prepare_statement C sql w =
      let (stmt, D, w') = prepare (record C { sb = sql }) sql w in
      let prepared : Option (Prepared q) = elim stmt [
        | none ↦ none
        | some s ↦ some (Prepared.new q s w')
      ] in
      (prepared, D, w')

  -- Either what the server says, or the statement or its error.
  pub get_last_error : Session q → q.World → Text
  get_last_error C w = if q.errno C.db w == 0 then C.sb else q.error C.db w
