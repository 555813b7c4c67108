-- ===== src/Db/Connection.antt =====
-- src/db/Connection.c. A function takes the connection and the world and returns both with its
-- outcome; what is thrown does not undo what was done. The vector of prepared statements is the list of
-- its contents. A connection that could not be opened is freed again at once and holds nothing, so a
-- connection always has its driver and its delegate. `id` stands for the address of the connection.
pub mod Clearing
pub mod Creating
pub mod Transactions
pub mod Queries
mod Tests
use libzdb.Prelude.{
  ℕ, ◌+◌, Bool, true, false, List, [], ◌∷◌, ◌++◌, Option, some, none, Text, Result, ok, err,
  Exception, assert_exception, sql_exception, ltb, if◌then◌else◌, zero, suc,
}
use libzdb.Prelude.Int.{ℤ, pos, negsuc, ltb_ℤ}
use libzdb.Util.Str.{lit, starts_with}
use libzdb.Net.Url.{Url}
use libzdb.Db.Delegate.{System, Call, ResultSet, Statement, TransactionType, Settings, Opened, Cop}
use libzdb.Db.ResultSet
use libzdb.Db.PreparedStatement

pub record Connection (s : System) : Type 0 where
  pub id : ℕ
  pub op : Cop s
  pub url : Url
  pub max_rows : ℤ
  pub fetch_size : ℤ
  pub is_available : Bool
  pub query_timeout : ℤ
  pub prepared : List (Statement s)
  pub in_transaction : ℕ
  pub fetch_size_default : ℤ
  pub last_accessed_time : ℕ
  pub result_set : Option (ResultSet s)
  pub delegate : s.ConnectionDelegate

abbrev pub Outcome : System → Type 0 → Type 0
Outcome s A = Result A × Connection s × s.World

abbrev default_prefetch_rows : ℤ
default_prefetch_rows = pos 100

-- `_getOp`: the first driver whose name the protocol starts with.
unfoldable pub find_op : {s : System} → List (Cop s) → Option Text → Option (Cop s)
find_op [] protocol = none
find_op (op ∷ cops) protocol =
    let rest = find_op cops protocol in
    if starts_with protocol (some op.name) then some op else rest

pub unsupported : Option Text → Text
unsupported none = lit "database protocol '(null)' not supported"
unsupported (some p) = lit "database protocol '" ++ (p ++ lit "' not supported")

-- `Connection_isSupported`
pub is_supported : {s : System} → List (Cop s) → Option Text → Bool
unfolding find_op
is_supported cops none = false
is_supported cops (some url) = elim (find_op cops (some url)) [ none ↦ false | some op ↦ true ]

-- `Connection_new` and `_setDelegate`: the connection, or the message where there is none, or what the
-- driver throws, which leaves `Connection_new`.
pub record Created (s : System) : Type 0 where
  pub connection : Option (Connection s)
  pub message : Option Text
  pub thrown : Option Exception

abbrev opened : {s : System} → ℕ → Cop s → Url → ℕ → Opened s → Created s
opened id op url time o = record {
  connection = elim o.delegate [
    | none ↦ none
    | some D ↦ some (record {
      id = id;
      op = op;
      url = url;
      max_rows = pos 0;
      fetch_size = o.fetch_size;
      is_available = true;
      query_timeout = pos 0;
      prepared = [];
      in_transaction = 0;
      fetch_size_default = o.fetch_size;
      last_accessed_time = time;
      result_set = none;
      delegate = D;
    })
  ];
  message = o.message;
  thrown = none;
}

abbrev threw : {s : System} → Exception → Created s
threw e = record { connection = none; message = none; thrown = some e }

module _ {s : System} where
  unfoldable pub new : List (Cop s) → ℕ → Url → s.World → Created s × s.World
  unfolding find_op
  new cops id url w = elim (find_op cops url.protocol) [
    | none ↦
        (record { connection = none; message = some (unsupported url.protocol); thrown = none }, w)
    | some op ↦
        let settings : Settings = record {
          url = url;
          max_rows = pos 0;
          fetch_size = default_prefetch_rows;
          query_timeout = pos 0;
        } in
        let (r, w') = op.new settings w in
        (elim r [ err e ↦ threw e | ok o ↦ opened id op url (s.now w) o ], w')
  ]

  pub settings_of : Connection s → Settings
  settings_of C = record {
    url = C.url;
    max_rows = C.max_rows;
    fetch_size = C.fetch_size;
    query_timeout = C.query_timeout;
  }

  unfoldable pub set_available : Connection s → Bool → s.World → Connection s
  set_available C b w = record C { is_available = b; last_accessed_time = s.now w }

  -- The driver is told where it wants to know.
  abbrev tell_timeout : Connection s → ℤ → s.World → s.World
  tell_timeout C ms w = elim C.op.set_query_timeout [ none ↦ w | some f ↦ f C.delegate ms w ]

  pub set_query_timeout : Connection s → ℤ → s.World → Outcome s (Unit {0})
  set_query_timeout C (negsuc ms) w = (err assert_exception, C, w)
  set_query_timeout C (pos ms) w =
      (ok tt, record C { query_timeout = pos ms }, tell_timeout C (pos ms) w)

  pub set_max_rows : Connection s → ℤ → Connection s
  set_max_rows C max = record C { max_rows = max }

  pub set_fetch_size : Connection s → ℤ → Result (Connection s)
  set_fetch_size C rows =
      if ltb_ℤ (pos 0) rows then ok (record C { fetch_size = rows }) else err assert_exception

  unfoldable pub ping : Connection s → s.World → Bool × s.World
  ping C w = C.op.ping C.delegate w

  -- `_freePrepared`, which pops the statements: the last one goes first.
  free_prepared : List (Statement s) → s.World → s.World
  free_prepared [] w = w
  free_prepared (P ∷ rest) w = PreparedStatement.free P (free_prepared rest w)

  free_result_set : Connection s → s.World → Connection s × s.World
  free_result_set C w = elim C.result_set [
    | none ↦ (C, w)
    | some R ↦ (record C { result_set = none }, ResultSet.free R w)
  ]

  reset_timeout : Connection s → s.World → Connection s × s.World
  unfolding set_query_timeout
  reset_timeout C w = elim C.query_timeout [
    | pos zero ↦ (C, w)
    | _ ↦ let (r, D, w') = set_query_timeout C (pos 0) w in (D, w')
  ]

  pub clear : Connection s → s.World → Connection s × s.World
  unfolding free_result_set reset_timeout
  clear C w =
      let (C1, w1) = free_result_set C w in
      let w2 = free_prepared C1.prepared w1 in
      let (C3, w3) = reset_timeout (record C1 { prepared = []; max_rows = pos 0 }) w2 in
      (record C3 { fetch_size = C3.fetch_size_default }, w3)

  pub free : Connection s → s.World → s.World
  free C w = let (D, w') = clear C w in D.op.free D.delegate w'

  pub last_error : Connection s → s.World → Text
  last_error C w = elim (C.op.get_last_error C.delegate w) [
    | none ↦ lit "?"
    | some [] ↦ lit "?"
    | some (c ∷ t) ↦ c ∷ t
  ]

  -- The outcome of a driver's call that says whether it succeeded.
  abbrev or_throw : Connection s → Bool × s.World → Outcome s (Unit {0})
  or_throw C (true, w) = (ok tt, C, w)
  or_throw C (false, w) = (err (sql_exception (last_error C w)), C, w)

  abbrev count_begin : Connection s → Bool × s.World → Outcome s (Unit {0})
  count_begin C (true, w) = (ok tt, record C { in_transaction = suc C.in_transaction }, w)
  count_begin C (false, w) = (err (sql_exception (last_error C w)), C, w)

  pub begin_transaction_type : Connection s → TransactionType → s.World → Outcome s (Unit {0})
  begin_transaction_type C type w = count_begin C (C.op.begin_transaction_type C.delegate type w)

  pub begin_transaction : Connection s → s.World → Outcome s (Unit {0})
  unfolding begin_transaction_type
  begin_transaction C w = begin_transaction_type C TransactionType.default w

  pub is_in_transaction : Connection s → Bool
  is_in_transaction C = ltb 0 C.in_transaction

  pub commit : Connection s → s.World → Outcome s (Unit {0})
  commit C w = or_throw (record C { in_transaction = 0 }) (C.op.commit C.delegate w)

  -- The pending results are cleared first, if there is a transaction to roll back.
  end_transaction : Connection s → s.World → Connection s × s.World
  end_transaction C w =
      let (D, w') = clear C w in
      if is_in_transaction C then (record D { in_transaction = 0 }, w') else (C, w)

  pub rollback : Connection s → s.World → Outcome s (Unit {0})
  rollback C w = let (D, w') = end_transaction C w in or_throw D (D.op.rollback D.delegate w')

  pub last_row_id : Connection s → s.World → ℤ
  last_row_id C w = C.op.last_row_id C.delegate w

  pub rows_changed : Connection s → s.World → Result ℤ
  rows_changed C w = C.op.rows_changed C.delegate w

  abbrev executed : Connection s → Result Bool × s.World → Outcome s (Unit {0})
  executed C (err e, w) = (err e, C, w)
  executed C (ok b, w) = or_throw C (b, w)

  -- `sql` is the statement with its arguments put in.
  pub execute : Connection s → Text → s.World → Outcome s (Unit {0})
  execute C sql w = let (D, w') = free_result_set C w in executed D (D.op.execute D.delegate sql w')

  abbrev queried : Connection s → Result (Option (ResultSet s)) × s.World → Outcome s (ResultSet s)
  queried C (err e, w) = (err e, C, w)
  queried C (ok none, w) = (err (sql_exception (last_error C w)), C, w)
  queried C (ok (some R), w) = (ok R, record C { result_set = some R }, w)

  pub execute_query : Connection s → Text → s.World → Outcome s (ResultSet s)
  execute_query C sql w =
      let (D, w') = free_result_set C w in
      queried D (D.op.execute_query D.delegate (settings_of D) sql w')

  abbrev prepared_as :
      Connection s → Result (Option (Statement s)) × s.World → Outcome s (Statement s)
  prepared_as C (err e, w) = (err e, C, w)
  prepared_as C (ok none, w) = (err (sql_exception (last_error C w)), C, w)
  prepared_as C (ok (some P), w) = (ok P, record C { prepared = C.prepared ++ P ∷ [] }, w)

  pub prepare_statement : Connection s → Text → s.World → Outcome s (Statement s)
  prepare_statement C sql w =
      prepared_as C (C.op.prepare_statement C.delegate (settings_of C) sql w)
