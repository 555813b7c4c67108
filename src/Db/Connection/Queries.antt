-- ===== src/Db/Connection/Queries.antt =====
-- The statements that a connection runs: what it keeps, and when it throws.
use libzdb.Prelude.{◌≡◌, ◌≢◌, ◌↔◌, true, [], ◌∷◌, ◌++◌, some, none, arith, ok, err, Text}
use libzdb.Db.Delegate.{System, ResultSet, Statement}
use libzdb.Db.ResultSet
use libzdb.Db.Connection.{
  Connection, Outcome, free_result_set, execute, execute_query, prepare_statement, settings_of,
  last_error,
}

module _ {s : System} where
  -- The world in which a connection calls its driver: what was pending has been freed.
  abbrev pub released : Connection s → s.World → s.World
  released C w = elim C.result_set [ none ↦ w | some R ↦ ResultSet.free R w ]

  -- The connection keeps the result set that it returns, and no other; where it throws it keeps none.
  abbrev pub Keeps : Outcome s (ResultSet s) → Type 0
  Keeps (ok R, C, w) = C.result_set ≡ some R
  Keeps (err e, C, w) = C.result_set ≡ none

  -- `Connection_executeQuery` frees the pending result set, then keeps the one that it returns, and
  -- none where it throws.
  pub execute_query-Keeps :
      (C : Connection s) (sql : Text) (w : s.World)
      → Keeps (execute_query C sql w)
        × ((execute_query C sql w).2
            ≡ (C.op.execute_query C.delegate (settings_of C) sql (released C w)).1)
  unfolding execute_query free_result_set settings_of
  execute_query-Keeps C sql w = ground arith

  -- `Connection_execute` frees the pending result set, whatever becomes of the statement, and throws
  -- exactly if the driver throws or reports a failure.
  pub execute_lem :
      (C : Connection s) (sql : Text) (w : s.World)
      → ((execute C sql w).1 ≡ record C { result_set = none })
        × (((execute C sql w).0 ≡ ok tt)
            ↔ ((C.op.execute C.delegate sql (released C w)).0 ≡ ok true))
  unfolding execute free_result_set
  execute_lem C sql w = (ground arith, (λ h. ground arith, λ h. ground arith))

  -- The statement stands behind those that the connection kept; where it throws it keeps what it had.
  abbrev pub Appends : Connection s → Outcome s (Statement s) → Type 0
  Appends C (ok P, D, w) = D.prepared ≡ C.prepared ++ P ∷ []
  Appends C (err e, D, w) = D ≡ C

  -- `Connection_prepareStatement` puts the statement that it returns behind those that the connection
  -- keeps; where it throws the connection is unchanged.
  pub prepare_statement-Appends :
      (C : Connection s) (sql : Text) (w : s.World) → Appends C (prepare_statement C sql w)
  unfolding prepare_statement
  prepare_statement-Appends C sql w = ground arith

  -- The message of an error is never empty.
  pub last_error-ne-nil : (C : Connection s) (w : s.World) → last_error C w ≢ []
  unfolding last_error
  last_error-ne-nil C w = ground arith
