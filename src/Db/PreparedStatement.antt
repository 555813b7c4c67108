-- ===== src/Db/PreparedStatement.antt =====
-- src/db/PreparedStatement.c. A statement keeps the result set of its last query and frees it before
-- the next one.
pub mod Results
use libzdb.Prelude.{
  ℕ, Bool, Option, some, none, Text, Result, ok, err, sql_exception, if◌then◌else◌, length,
}
use libzdb.Prelude.Int.{ℤ, pos, negsuc}
use libzdb.Util.Str.{lit}
use libzdb.Db.Delegate.{System, Call, Pop, ResultSet, Statement}
use libzdb.Db.ResultSet

-- What a call on a statement returns: its outcome, the statement and the world.
abbrev pub Outcome : System → Type 0 → Type 0
Outcome s A = Result A × Statement s × s.World

-- A negative size is taken for zero.
abbrev size_of : ℤ → ℤ
size_of (pos n) = pos n
size_of (negsuc n) = pos 0

module _ {s : System} where
  -- `_clearResultSet`
  pub clear_result_set : Statement s → s.World → Statement s × s.World
  clear_result_set P w = elim P.result_set [
    | none ↦ (P, w)
    | some R ↦ (record P { result_set = none }, ResultSet.free R w)
  ]

  pub new : s.StatementDelegate → Pop s → Statement s
  new D op = record { op = op; result_set = none; delegate = D }

  pub free : Statement s → s.World → s.World
  free P w = let (Q, w') = clear_result_set P w in Q.op.free Q.delegate w'

  pub set_sstring : Statement s → ℤ → Option Text → ℤ → Call s (Unit {0})
  set_sstring P i x size w = P.op.set_string P.delegate i x (size_of size) w

  set_string : Statement s → ℤ → Option Text → Call s (Unit {0})
  unfolding set_sstring
  set_string P i x w = set_sstring P i x (elim x [ none ↦ pos 0 | some t ↦ pos (length t) ]) w

  pub set_int : Statement s → ℤ → ℤ → Call s (Unit {0})
  set_int P i x w = P.op.set_int P.delegate i x w

  pub set_llong : Statement s → ℤ → ℤ → Call s (Unit {0})
  set_llong P i x w = P.op.set_llong P.delegate i x w

  pub set_double : Statement s → ℤ → s.Double → Call s (Unit {0})
  set_double P i x w = P.op.set_double P.delegate i x w

  pub set_blob : Statement s → ℤ → Option Text → ℤ → Call s (Unit {0})
  set_blob P i x size w = P.op.set_blob P.delegate i x (size_of size) w

  pub set_timestamp : Statement s → ℤ → ℤ → Call s (Unit {0})
  set_timestamp P i x w = P.op.set_timestamp P.delegate i x w

  pub set_null : Statement s → ℤ → Call s (Unit {0})
  set_null P i w = P.op.set_string P.delegate i none (pos 0) w

  pub execute : Statement s → s.World → Outcome s (Unit {0})
  execute P w =
      let (Q, w') = clear_result_set P w in let (r, w'') = Q.op.execute Q.delegate w' in (r, Q, w'')

  -- What is kept of a query: the result set, or the exception where there is none.
  abbrev keep_result :
      Statement s → Result (Option (ResultSet s)) × s.World → Outcome s (ResultSet s)
  keep_result P (err e, w) = (err e, P, w)
  keep_result P (ok none, w) = (
    err (sql_exception (lit "PreparedStatement_executeQuery")),
    record P { result_set = none },
    w,
  )
  keep_result P (ok (some R), w) = (ok R, record P { result_set = some R }, w)

  pub execute_query : Statement s → s.World → Outcome s (ResultSet s)
  execute_query P w =
      let (Q, w') = clear_result_set P w in keep_result Q (Q.op.execute_query Q.delegate w')

  pub rows_changed : Statement s → s.World → Result ℤ
  rows_changed P w = P.op.rows_changed P.delegate w

  pub parameter_count : Statement s → s.World → ℤ
  parameter_count P w = P.op.parameter_count P.delegate w
