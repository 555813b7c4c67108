-- ===== src/Db/PreparedStatement/Results.antt =====
-- The result set that a prepared statement keeps.
use libzdb.Prelude.{◌≡◌, some, none, arith, ok, err, ◌↔◌}
use libzdb.Db.Delegate.{System, ResultSet, Statement}
use libzdb.Db.ResultSet
use libzdb.Db.PreparedStatement.{Outcome, clear_result_set, execute, execute_query}

module _ {s : System} where
  -- The world once the result set of the last query was freed.
  abbrev pub released : Statement s → s.World → s.World
  released P w = elim P.result_set [ none ↦ w | some R ↦ ResultSet.free R w ]

  -- The statement keeps the result set that it returns, and no other; where it throws it keeps none.
  abbrev pub Keeps : Outcome s (ResultSet s) → Type 0
  Keeps (ok R, P, w) = P.result_set ≡ some R
  Keeps (err e, P, w) = P.result_set ≡ none

  -- `PreparedStatement_executeQuery` frees the result set of the last query before the driver is called,
  -- keeps the one that it returns, and none where it throws; it throws exactly if the driver gives
  -- no result set.
  pub execute_query_lem :
      (P : Statement s) (w : s.World)
      → let given = P.op.execute_query P.delegate (released P w) in
        Keeps (execute_query P w)
        × ((execute_query P w).2 ≡ given.1)
        × ((R : ResultSet s) → ((execute_query P w).0 ≡ ok R) ↔ (given.0 ≡ ok (some R)))
  unfolding execute_query clear_result_set
  execute_query_lem P w = (ground arith, ground arith, λ R. (λ h. ground arith, λ h. ground arith))

  -- After `PreparedStatement_execute` the statement keeps no result set, and a second call frees nothing:
  -- it only calls the driver again.
  pub execute-execute :
      (P : Statement s) (w : s.World)
      → let (r, Q, w') = execute P w in
        (Q.result_set ≡ none)
        × (execute Q w' ≡ ((Q.op.execute Q.delegate w').0, Q, (Q.op.execute Q.delegate w').1))
  unfolding execute clear_result_set
  execute-execute P w = ground arith
