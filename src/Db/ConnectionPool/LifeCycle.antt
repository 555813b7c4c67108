-- ===== src/Db/ConnectionPool/LifeCycle.antt =====
-- `ConnectionPool_start` and `ConnectionPool_stop`, and a connection's way out of the pool and back.
use libzdb.Prelude.{
  ◌+◌, ◌≤◌, ◌<◌, ◌≡◌, refl, ap, ◌∙◌, sym, subst, Bool, true, false, ◌&&◌, List, [], ◌∷◌, ◌++◌, some,
  arith, inl, inr, Bool-cases, length, Result, ok, err, if◌then◌else◌, sql_exception, Exception,
  ◌⊎◌,
}
use mathlib.Core.List.{reverse, reverse-append}
use libzdb.Db.Delegate.{System}
use libzdb.Db.Connection.{Connection, free}
use libzdb.Db.ConnectionPool.{
  ConnectionPool, Setting, Outcome, got, fill, start, start_error, stop, get_connection,
  return_connection, drain,
}
use libzdb.Db.ConnectionPool.Members.{Distinct, lent, lent_nil}
use libzdb.Db.ConnectionPool.Rounds.{IsFreshAddress, Lends}
use libzdb.Db.ConnectionPool.Acquiring.{get_connection-Lends}
use libzdb.Db.ConnectionPool.Returning.{return_connection-IsFresh}
use libzdb.Db.ConnectionPool.Filling.{
  AllIdle, Fills-filled, Fills-empty, Fills-thrown, fill-Fills, fill-keeps, filling_cases,
}

module _ {s : System} where
  -- What a start comes to: the pool is filled and holds at least one and at most the initial number of
  -- connections, all available; or it throws, and the pool is empty and not filled; or a driver throws,
  -- and the pool is not filled, has what was made before, and the mutex stays locked.
  abbrev pub Starts : ConnectionPool s → Outcome s (Result (Unit {0})) → Type 0
  Starts P (ok u, Q, w) =
      (Q.filled ≡ true)
      × (Q.stopped ≡ false)
      × (Q.locked ≡ P.locked)
      × AllIdle Q.pool
      × (length Q.pool ≤ P.initial_connections)
      × (0 < P.initial_connections → 0 < length Q.pool)
  Starts P (err e, Q, w) =
      (Q.filled ≡ false)
      × (((Q.locked ≡ P.locked) × (Q.pool ≡ []))
          ⊎ ((Q.locked ≡ true) × AllIdle Q.pool × (length Q.pool ≤ P.initial_connections)))

module _ {s : System} (env : Setting s) where
  -- The pool as a start finds it, and what it makes of the outcome of filling it.
  abbrev opening : ConnectionPool s → ConnectionPool s
  opening P = record P { stopped = false }

  start_filled :
      (P : ConnectionPool s) (w : s.World)
      → P.filled ≡ false
      → let o = fill env P.initial_connections 0 (opening P) w in
        o.0 ≡ ok true
        → (Q : ConnectionPool s) × (start env P w ≡ (ok tt, Q, o.2))
          × (Q.filled ≡ true)
          × (Q.stopped ≡ o.1.stopped)
          × (Q.locked ≡ o.1.locked)
          × (Q.pool ≡ o.1.pool)
  unfolding start
  start_filled P w h e =
      let R = (fill env P.initial_connections 0 (opening P) w).1 in
      (
        record R { filled = true; reaper = if R.do_sweep then true else R.reaper },
        ground arith,
        refl,
        refl,
        refl,
        refl,
      )

  start_failed :
      (P : ConnectionPool s) (w : s.World)
      → P.filled ≡ false
      → let o = fill env P.initial_connections 0 (opening P) w in
        o.0 ≡ ok false
        → start env P w
          ≡ (err (sql_exception (start_error o.1.error)), record o.1 { filled = false }, o.2)
  unfolding start
  start_failed P w h e = ground arith

  start_threw :
      (P : ConnectionPool s) (w : s.World) (x : Exception)
      → P.filled ≡ false
      → let o = fill env P.initial_connections 0 (opening P) w in
        o.0 ≡ err x → start env P w ≡ (err x, record o.1 { locked = true }, o.2)
  unfolding start
  start_threw P w x h e = ground arith

  pub start-Starts :
      IsFreshAddress env
      → (P : ConnectionPool s) (w : s.World) → P.filled ≡ false
      → P.pool ≡ []
      → Starts P (start env P w)
  start-Starts fresh P w not_filled empty =
      let o = fill env P.initial_connections 0 (opening P) w in
      let none_lent : AllIdle P.pool = subst AllIdle (sym empty) (tt, lent_nil) in
      let fills =
        fill-Fills env fresh P.initial_connections 0 (opening P) w none_lent (ap length empty) in
      let (stopped, locked, unfilled) = fill-keeps env P.initial_connections 0 (opening P) w in
      elim (filling_cases o.0) [
        | inl filled ↦
            let (Q, e, full, running, free_again, pool) = start_filled P w not_filled filled in
            let (idle, most, some_made) = Fills-filled (P.initial_connections + 0) o fills filled in
            let n = ap length pool in
            subst (Starts P) (sym e) (
              full,
              running ∙ stopped,
              free_again ∙ locked,
              subst AllIdle (sym pool) idle,
              omega arith,
              λ lt. omega (arith, some_made (omega arith)),
            )
        | inr (inl failed) ↦
            subst (Starts P) (sym (start_failed P w not_filled failed))
              (refl, inl (locked, Fills-empty (P.initial_connections + 0) o fills failed))
        | inr (inr (x, thrown)) ↦
            let (idle, most) = Fills-thrown (P.initial_connections + 0) o x fills thrown in
            subst (Starts P) (sym (start_threw P w x not_filled thrown))
              (unfilled ∙ not_filled, inr (refl, idle, omega arith))
      ]

  -- Where the connections of a pool are at different addresses, and `malloc` gives addresses that are
  -- not in use, a connection that is handed out can be returned; the two calls, done one after the
  -- other, leave the addresses distinct and the lent connections as they were.
  pub return-get :
      IsFreshAddress env
      → (P : ConnectionPool s) (w : s.World) (con : Connection s) → Distinct P.pool
      → (get_connection env P w).0 ≡ got con
      → (Q : ConnectionPool s) × (w' : s.World) × (return_connection
            (get_connection env P w).1
            con.id
            (get_connection env P w).2
          ≡ some (Q, w'))
        × Distinct Q.pool
        × (lent Q.pool ≡ lent P.pool)
  return-get fresh P w con d e =
      let (apart, busy, (l, r, before, after)) =
        subst (λ a. Lends P.pool a (get_connection env P w).1.pool) e
          (get_connection-Lends env fresh P w d) in
      let (Q, w', called, distinct, left, _) =
        return_connection-IsFresh (get_connection env P w).1 con (get_connection env P w).2 l r
          apart after in
      (Q, w', called, distinct, left ∙ sym before)

module _ {s : System} where
  -- The connections are freed one after the other.
  abbrev pub free_each : List (Connection s) → s.World → s.World
  free_each [] w = w
  free_each (c ∷ cs) w = free_each cs (free c w)

  free_each-append :
      (cs ds : List (Connection s)) (w : s.World)
      → free_each (cs ++ ds) w ≡ free_each ds (free_each cs w)
  free_each-append [] ds w = refl
  free_each-append (c ∷ cs) ds w = free_each-append cs ds (free c w)

  free_each-reverse :
      (cs : List (Connection s)) (w : s.World) → drain cs w ≡ free_each (reverse cs) w
  unfolding drain
  free_each-reverse [] w = refl
  free_each-reverse (c ∷ cs) w =
      ap (free c) (free_each-reverse cs w)
      ∙ sym (free_each-append (reverse cs) (c ∷ []) w)
      ∙ ap (λ l. free_each l w) (sym (reverse-append (c ∷ []) cs))

  stop_filled :
      (P : ConnectionPool s) (w : s.World)
      → P.filled ≡ true
      → stop P w ≡ (
        P.do_sweep && P.reaper,
        record P { stopped = true; filled = false; pool = [] },
        drain P.pool w,
      )
  unfolding stop
  stop_filled P w h = ground arith

  stop_idle :
      (P : ConnectionPool s) (w : s.World)
      → P.filled ≡ false
      → stop P w ≡ (false, record P { stopped = true }, w)
  unfolding stop
  stop_idle P w h = ground arith

module _ {s : System} (env : Setting s) where
  -- A stop of the pool comes to this.
  abbrev pub Stops : ConnectionPool s → s.World → Outcome s Bool → Type 0
  Stops P w (joined, Q, w') =
      (Q.pool ≡ [])
      × (Q.filled ≡ false)
      × (Q.stopped ≡ true)
      × (w' ≡ free_each (reverse P.pool) w)
      × (joined ≡ P.filled && (P.do_sweep && P.reaper))
      × (stop Q w' ≡ (false, Q, w'))
      × Starts Q (start env Q w')

  -- Where `malloc` gives addresses that are not in use, and a pool that is not started has no
  -- connections, stopping it frees each of its connections once, the last one first, and leaves it
  -- empty, not filled and stopped. The reaper is joined exactly if the pool was started, has a
  -- reaper and still wants the sweep. A second stop does nothing more. A start after the stop
  -- comes to what the start of a new pool does: it fills the pool, or throws and leaves it empty, or a
  -- driver throws and the mutex stays locked.
  pub start-stop :
      IsFreshAddress env
      → (P : ConnectionPool s) (w : s.World) → (P.filled ≡ false → P.pool ≡ [])
      → Stops P w (stop P w)
  start-stop fresh P w unfilled = elim (Bool-cases P.filled) [
    | inl filled ↦
        let Q = record P { stopped = true; filled = false; pool = [] } in
        let w' = drain P.pool w in
        subst (Stops P w) (sym (stop_filled P w filled)) (
          refl,
          refl,
          refl,
          free_each-reverse P.pool w,
          rw filled refl,
          stop_idle Q w' refl,
          start-Starts env fresh Q w' refl refl,
        )
    | inr idle ↦
        let Q = record P { stopped = true } in
        let empty = unfilled idle in
        subst (Stops P w) (sym (stop_idle P w idle)) (
          empty,
          idle,
          refl,
          ap (λ l. free_each (reverse l) w) (sym empty),
          rw idle refl,
          stop_idle Q w idle,
          start-Starts env fresh Q w idle empty,
        )
  ]
