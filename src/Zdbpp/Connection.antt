-- ===== src/Zdbpp/Connection.antt =====
-- The class `Connection` of src/zdbpp.h, less `close` and the destructor, which the pool takes part in. The
-- getters of properties are the fields of the connection.
use libzdb.Prelude.{Bool, List, [], ◌∷◌, some, Text, Result, ok, err}
use libzdb.Prelude.Int.{ℤ}
use libzdb.Db.Delegate.{System, ResultSet, TransactionType, Cop}
use libzdb.Db.Connection as C
use libzdb.Db.Connection.{Connection}
use libzdb.Zdbpp.Wrapper.{Cpp, returned, threw, said, ended, wrap, wrap_return}
use libzdb.Zdbpp.PreparedStatement.{Platform, Argument, Prepared, bind_from, ◌then◌}
use libzdb.Zdbpp.PreparedStatement as Statement

abbrev pub Outcome : System → Type 0 → Type 0
Outcome s A = Cpp A × Connection s × s.World

module _ {s : System} where
  -- The two forms of the macro.
  unfoldable pub wrapped : {A : Type 0} → Result A × Connection s × s.World → Outcome s A
  unfolding wrap
  wrapped (r, D, w) = (wrap r, D, w)

  unfoldable pub return_of : {A : Type 0} → Result A × Connection s × s.World → Outcome s A
  unfolding wrap_return
  return_of (r, D, w) = (wrap_return r, D, w)

  pub set_query_timeout : Connection s → ℤ → s.World → Outcome s (Unit {0})
  unfolding return_of
  set_query_timeout D ms w = return_of (C.set_query_timeout D ms w)

  pub set_max_rows : Connection s → ℤ → Connection s
  set_max_rows D max = C.set_max_rows D max

  pub set_fetch_size : Connection s → ℤ → s.World → Outcome s (Unit {0})
  set_fetch_size D rows w = elim (C.set_fetch_size D rows) [
    | ok E ↦ (returned tt, E, w)
    | err e ↦ (ended e, D, w)
  ]

  pub ping : Connection s → s.World → Bool × s.World
  ping D w = C.ping D w

  pub clear : Connection s → s.World → Connection s × s.World
  clear D w = C.clear D w

  pub begin_transaction : Connection s → TransactionType → s.World → Outcome s (Unit {0})
  unfolding wrapped
  begin_transaction D type w = wrapped (C.begin_transaction_type D type w)

  pub in_transaction : Connection s → Bool
  in_transaction D = C.is_in_transaction D

  pub commit : Connection s → s.World → Outcome s (Unit {0})
  unfolding wrapped
  commit D w = wrapped (C.commit D w)

  pub rollback : Connection s → s.World → Outcome s (Unit {0})
  unfolding wrapped
  rollback D w = wrapped (C.rollback D w)

  pub last_row_id : Connection s → s.World → ℤ
  last_row_id D w = C.last_row_id D w

  pub rows_changed : Connection s → s.World → Cpp ℤ
  unfolding wrap_return
  rows_changed D w = wrap_return (C.rows_changed D w)

  -- The statement is made before RETURN.
  pub prepare_statement : Connection s → Text → s.World → Outcome s (Prepared s)
  prepare_statement D sql w =
      let (r, E, w') = C.prepare_statement D sql w in
      (elim r [ ok P ↦ returned (record { t = P; store = [] }) | err e ↦ threw e ], E, w')

  -- What is done with a statement that is prepared for the call.
  unfoldable pub with_statement :
      {A : Type 0}
      → Outcome s (Prepared s)
      → (Prepared s → s.World → Statement.Outcome s A)
      → Outcome s A
  with_statement (returned P, D, w) run = let (r, Q, w') = run P w in (r, D, w')
  with_statement (threw e, D, w) run = (threw e, D, w)
  with_statement (said t, D, w) run = (said t, D, w)
  with_statement (ended e, D, w) run = (ended e, D, w)

  -- `Connection::bindValues`, which does not look at how many parameters there are.
  pub bind_values :
      Platform → Prepared s → List (Argument s.Double) → s.World → Statement.Outcome s (Unit {0})
  bind_values m P xs w = bind_from m P 1 xs w

  pub execute :
      Platform → Connection s → Text → List (Argument s.Double) → s.World → Outcome s (Unit {0})
  unfolding wrapped prepare_statement with_statement bind_values ◌then◌
  execute m D sql [] w = wrapped (C.execute D sql w)
  execute m D sql (x ∷ xs) w =
      with_statement (prepare_statement D sql w)
        (λ P v. bind_values m P (x ∷ xs) v then (λ u Q v'. Statement.execute Q v'))

  pub execute_query :
      Platform → Connection s → Text → List (Argument s.Double) → s.World → Outcome s (ResultSet s)
  unfolding wrapped prepare_statement with_statement bind_values ◌then◌
  execute_query m D sql [] w = wrapped (C.execute_query D sql w)
  execute_query m D sql (x ∷ xs) w =
      with_statement (prepare_statement D sql w)
        (λ P v. bind_values m P (x ∷ xs) v then (λ u Q v'. Statement.execute_query Q v'))

  pub get_last_error : Connection s → s.World → Text
  get_last_error D w = C.last_error D w

  pub is_supported : List (Cop s) → Text → Bool
  is_supported cops url = C.is_supported cops (some url)
