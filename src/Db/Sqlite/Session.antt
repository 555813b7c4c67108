-- ===== src/Db/Sqlite/Session.antt =====
-- src/db/sqlite/SQLiteConnection.c. The scratch buffer `sb` is not part of the state: each function
-- that uses it sets it first.
pub mod Closing
use Prim.Native.Nat.{bit_or}
use libzdb.Prelude.{
  ℕ, zero, suc, Bool, false, List, [], ◌∷◌, ◌++◌, ◌||◌, Option, some, none, Text, ◌==◌,
  if◌then◌else◌,
}
use libzdb.Prelude.Int.{ℤ, pos, ltb_ℤ}
use libzdb.Util.Str.{lit, member, parse_bool}
use libzdb.Net.Url.{Url, parameter_names, parameter}
use libzdb.Db.Delegate.{TransactionType}
use libzdb.Db.Sqlite.Adapter.{Sqlite, exec, prepare}
use libzdb.Db.Sqlite.Rows.{Rows}
use libzdb.Db.Sqlite.Prepared.{Prepared}
use libzdb.Db.Sqlite.Rows
use libzdb.Db.Sqlite.Prepared

-- `struct ConnectionDelegate_T`; of the connection, its address.
pub record Session (q : Sqlite) : Type 0 where
  pub db : q.Db
  pub last_error : ℕ
  pub delegator : ℕ

-- `kQueryTimeoutDelta`
abbrev query_timeout_delta : ℤ
query_timeout_delta = pos 5

abbrev handled : List Text
handled = lit "serialized" ∷ lit "shared-cache" ∷ []

-- What `%s` prints of a value that may be NULL.
abbrev printed_or_null : Option Text → Text
printed_or_null none = lit "(null)"
printed_or_null (some t) = t

-- The pragmas for the parameters of the URL, less those that are handled when the database is opened.
pub pragmas : Url → List Text → Text
pragmas U [] = []
pragmas U (name ∷ names) =
    let rest = pragmas U names in
    if member (some name) (some handled)
    then rest
    else lit "PRAGMA "
      ++ (name ++ (lit " = " ++ (printed_or_null (parameter U name) ++ (lit "; " ++ rest))))

pub begin_sql : TransactionType → Text
begin_sql TransactionType.immediate = lit "BEGIN IMMEDIATE TRANSACTION;"
begin_sql TransactionType.exclusive = lit "BEGIN EXCLUSIVE TRANSACTION;"
begin_sql type = lit "BEGIN TRANSACTION;"

module _ (q : Sqlite) where
  -- `_options`; `always_shared` is the build with ENABLE_SQLITE_SHARED_CACHE.
  pub options : Url → ℕ
  options U =
      let mode = bit_or q.open_readwrite q.open_create in
      let serialized = parse_bool (parameter U (lit "serialized")) in
      let threads = bit_or mode (if serialized then q.open_fullmutex else q.open_nomutex) in
      if q.always_shared || parse_bool (parameter U (lit "shared-cache"))
      then bit_or threads q.open_sharedcache
      else threads

  -- `_doConnect`: the database, or the message where it cannot be opened.
  pub do_connect : Url → q.World → (Option q.Db × Option Text) × q.World
  do_connect U w = elim U.path [
    | none ↦ ((none, some (lit "no database specified in URL")), w)
    | some path ↦
        let ((status, db), w') = q.sqlite3_open path (options U) w in
        let reason = lit "' -- " ++ q.sqlite3_db_errmsg db w' in
        if status == q.status_ok then ((some db, none), w') else (
          (none, some (lit "cannot open database '" ++ (path ++ reason))),
          (q.sqlite3_close db w').1,
        )
  ]

  -- The loop of `_free`, a number of rounds at most: closing is tried again for as long as the database is
  -- busy. `none` is that it still is.
  pub close : ℕ → q.Db → q.World → Option q.World
  close zero db w = none
  close (suc rounds) db w =
      let (status, w') = q.sqlite3_close db w in
      let again = close rounds db (q.usleep 10 w') in
      if status == q.status_busy then again else some w'

  pub free : ℕ → Session q → q.World → Option q.World
  unfolding close
  free rounds C w = close rounds C.db w

  -- `zdb_sqlite3_exec`, of which the status is kept.
  abbrev run : Session q → Text → q.World → Bool × Session q × q.World
  run C sql w =
      let (status, w') = exec q C.db sql w in
      (status == q.status_ok, record C { last_error = status }, w')

  -- `_setProperties`: the message, where the pragmas cannot be set.
  pub set_properties : Session q → Url → q.World → Option Text × Session q × q.World
  set_properties C U w = elim (parameter_names U) [
    | none ↦ (none, C, w)
    | some names ↦
        let (done, D, w') = run C (pragmas U names) w in
        let message = lit "unable to set database pragmas -- " ++ q.sqlite3_db_errmsg D.db w' in
        (if done then none else some message, D, w')
  ]

  -- `_new`, given the address of the connection: the delegate, or the message. The rounds are those for closing
  -- a database of which the properties could not be set.
  pub new : ℕ → ℕ → Url → q.World → Option ((Option (Session q) × Option Text) × q.World)
  unfolding do_connect set_properties free
  new rounds delegator U w =
      let ((db, message), w') = do_connect U w in
      elim db [
        | none ↦ some ((none, message), w')
        | some d ↦
            let C : Session q = record { db = d; last_error = 0; delegator = delegator } in
            let (failed, D, w'') =
              set_properties C U (q.sqlite3_busy_timeout d query_timeout_delta w') in
            elim failed [
              | none ↦ some ((some D, none), w'')
              | some e ↦ elim (free rounds D w'') [
                | none ↦ none
                | some closed ↦ some ((none, some e), closed)
              ]
            ]
      ]

  pub ping : Session q → q.World → Bool × Session q × q.World
  ping C w = run C (lit "select 1;") w

  pub set_query_timeout : Session q → ℤ → q.World → q.World
  set_query_timeout C ms w =
      q.sqlite3_busy_timeout C.db (if ltb_ℤ (pos 0) ms then ms else query_timeout_delta) w

  pub begin_transaction_type : Session q → TransactionType → q.World → Bool × Session q × q.World
  begin_transaction_type C type w = run C (begin_sql type) w

  pub commit : Session q → q.World → Bool × Session q × q.World
  commit C w = run C (lit "COMMIT TRANSACTION;") w

  pub rollback : Session q → q.World → Bool × Session q × q.World
  rollback C w = run C (lit "ROLLBACK TRANSACTION;") w

  pub last_row_id : Session q → q.World → ℤ
  last_row_id C w = q.sqlite3_last_insert_rowid C.db w

  pub rows_changed : Session q → q.World → ℤ
  rows_changed C w = q.sqlite3_db_changes C.db w

  -- `sql` is the statement with its arguments put in.
  pub execute : Session q → Text → q.World → Bool × Session q × q.World
  execute C sql w = run C sql w

  -- The statement, where the status says that there is one, and the connection with the status.
  abbrev compiled : Session q → Text → q.World → Option q.Stmt × Session q × q.World
  compiled C sql w =
      let ((status, stmt), w') = prepare q C.db sql w in
      (if status == q.status_ok then stmt else none, record C { last_error = status }, w')

  -- A result set that owns its statement, given the connection's maximum of rows.
  pub execute_query : ℤ → Session q → Text → q.World → Option (Rows q) × Session q × q.World
  execute_query max_rows C sql w =
      let (stmt, D, w') = compiled C sql w in
      let rows : Option (Rows q) = elim stmt [
        | none ↦ none
        | some p ↦ some (Rows.new q max_rows p false w')
      ] in
      (rows, D, w')

  pub prepare_statement : Session q → Text → q.World → Option (Prepared q) × Session q × q.World
  prepare_statement C sql w =
      let (stmt, D, w') = compiled C sql w in
      let prepared : Option (Prepared q) = elim stmt [
        | none ↦ none
        | some p ↦ some (Prepared.new q C.delegator p)
      ] in
      (prepared, D, w')

  pub get_last_error : Session q → q.World → Text
  get_last_error C w = q.sqlite3_db_errmsg C.db w
