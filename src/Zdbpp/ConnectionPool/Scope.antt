-- ===== src/Zdbpp/ConnectionPool/Scope.antt =====
-- A connection that goes out of scope.
use libzdb.Prelude.{ℕ, ◌≡◌, refl, ap, subst, some, none, Result, ok, err, sql_exception, arith}
use libzdb.Db.Delegate.{System}
use libzdb.Db.Connection.{Connection}
use libzdb.Db.ConnectionPool as C
use libzdb.Db.ConnectionPool.{
  ConnectionPool, Setting, got, failed, Acquired, get_connection_or_exception,
}
use libzdb.Db.ConnectionPool.Members.{Distinct, lent}
use libzdb.Db.ConnectionPool.Rounds.{IsFreshAddress}
use libzdb.Db.ConnectionPool.LifeCycle.{return-get}
use libzdb.Zdbpp.Wrapper.{Cpp, returned, threw}
use libzdb.Zdbpp.ConnectionPool.{Handle, get_connection, close, destroy}

-- What `get_connection` makes of what the pool of the library gives.
abbrev handle_of : {s : System} → Acquired s → Cpp Handle
handle_of {s} r =
    let given : Result (Connection s) = elim r [
      | got con ↦ ok con
      | failed message ↦ err (sql_exception message)
      | C.threw e ↦ err e
    ] in
    elim given [ ok con ↦ returned (some con.id) | err e ↦ threw e ]

abbrev handle_in : Cpp Handle → Handle
handle_in r = elim r [ returned h ↦ h | _ ↦ none ]

module _ {s : System} where
  handle_of-got :
      (r : Acquired s) (h : Handle)
      → handle_of r ≡ returned h
      → (con : Connection s) × (r ≡ got con) × (some con.id ≡ h)
  handle_of-got (got con) h e = (con, refl, ap handle_in e)
  handle_of-got (failed message) h e = absurd (grind arith)
  handle_of-got (C.threw x) h e = absurd (grind arith)

  pub lent_as_handle :
      (env : Setting s) (P : ConnectionPool s) (w : s.World) (con : Connection s)
      → (C.get_connection env P w).0 ≡ got con
      → (get_connection env P w).0 ≡ returned (some con.id)
  unfolding get_connection get_connection_or_exception
  lent_as_handle env P w con e = ap handle_of e

  close_lem :
      (P Q : ConnectionPool s) (id : ℕ) (w w' : s.World)
      → C.return_connection P id w ≡ some (Q, w')
      → close P (some id) w ≡ some (none, Q, w')
  unfolding close
  close_lem P Q id w w' e = rw (e, close) refl

  -- Where `malloc` gives addresses that are not in use, a connection that the pool gave can be closed; the
  -- pool then has the connections lent that it had before, at addresses that are distinct, and the
  -- destructor that runs afterwards does not return the connection a second time. Without a call of `close`
  -- the destructor itself leaves the pool so.
  pub get_connection-destroy :
      (env : Setting s)
      → IsFreshAddress env
      → (P : ConnectionPool s) (w : s.World) (h : Handle) → Distinct P.pool
      → (get_connection env P w).0 ≡ returned h
      → let (r, R, v) = get_connection env P w in
        (Q : ConnectionPool s) × (w' : s.World) × (close R h v ≡ some (none, Q, w'))
        × (destroy Q none w' ≡ some (Q, w'))
        × (destroy R h v ≡ some (Q, w'))
        × Distinct Q.pool
        × (lent Q.pool ≡ lent P.pool)
  unfolding get_connection get_connection_or_exception destroy
  get_connection-destroy env fresh P w h d e =
      let (con, e', same) = handle_of-got (C.get_connection env P w).0 h e in
      let (Q, w', called, apart, left) = return-get env fresh P w con d e' in
      let R = (C.get_connection env P w).1 in
      let v = (C.get_connection env P w).2 in
      let closed = close_lem R Q con.id v w' called in
      (
        Q,
        w',
        subst (λ k. close R k v ≡ some (none, Q, w')) same closed,
        refl,
        subst (λ k. destroy R k v ≡ some (Q, w')) same (rw (closed, destroy) refl),
        apart,
        left,
      )
