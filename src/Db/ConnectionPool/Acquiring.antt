-- ===== src/Db/ConnectionPool/Acquiring.antt =====
-- `_getConnection`: what it hands out, what it leaves of the pool, and when it fails.
use libzdb.Prelude.{
  ℕ, zero, suc, ◌+◌, ◌-◌, ◌≤◌, ◌<◌, ◌≡◌, refl, ap, ◌∙◌, false, [], ◌∷◌, ◌++◌, some, arith, inl, inr,
  length, length-append, max,
}
use libzdb.Db.Delegate.{System}
use libzdb.Net.Url.{Url}
use libzdb.Db.Connection.{new, Connection, set_available, ping, free}
use libzdb.Db.ConnectionPool.{
  ConnectionPool, Setting, got, failed, ids, count_active, remove_id, connect, create_or_fail,
  acquire, get_connection, pool_is_full, is_full,
}
use libzdb.Db.ConnectionPool.Members.{
  Distinct, AllLent, lent_all, count_active-lent, length-lent-le,
}
use libzdb.Db.ConnectionPool.Rounds.{
  IsFreshAddress, Lends, Lends-via, create-Creates, create_or_fail-Lends, acquire_cases,
  Taken-Lends, Taken-kept, Taken-count, Taken-shrinks, Taken-apart, Taken-length,
}

module _ {s : System} (env : Setting s) where
  acquire-Lends :
      IsFreshAddress env
      → (available size : ℕ) (P : ConnectionPool s) (w : s.World) → Distinct P.pool
      → Lends P.pool (acquire env available size P w).0 (acquire env available size P w).1.pool
  acquire-Lends fresh zero size P w d = unfold acquire in create_or_fail-Lends env fresh size P w d
  acquire-Lends fresh (suc available) size P w d =
      acquire_cases env (λ o. Lends P.pool o.0 o.1.pool) available size P w
        (λ all. create_or_fail-Lends env fresh size P w d) (λ con t up. Taken-Lends env P w con t d)
        (λ con t down.
          Lends-via env P.pool _ _ _ (Taken-kept env P w con t d)
            (acquire-Lends fresh available _ _ _ (Taken-apart env P w con t d)))

  -- Where the connections of a pool are at different addresses, and `malloc` gives addresses that are not
  -- in use, they still are after a call of `_getConnection`. A connection that is handed out was not lent,
  -- and is marked as lent: the lent connections are those that were lent before, unchanged, and this one.
  -- Where none is handed out they are those that were lent.
  pub get_connection-Lends :
      IsFreshAddress env
      → (P : ConnectionPool s) (w : s.World) → Distinct P.pool
      → Lends P.pool (get_connection env P w).0 (get_connection env P w).1.pool
  unfolding get_connection
  get_connection-Lends fresh P w d =
      acquire-Lends fresh (length P.pool - count_active P.pool) (length P.pool) P w d

  acquire_full :
      (available size : ℕ) (P : ConnectionPool s) (w : s.World)
      → available ≡ 0
      → P.max_connections ≤ size
      → acquire env available size P w ≡ (failed pool_is_full, P, w)
  unfolding acquire create_or_fail
  acquire_full zero size P w e full = ground arith
  acquire_full (suc available) size P w e full = absurd (omega arith)

  -- A pool of which all connections are lent, and that holds as many as it may, hands out none, with the
  -- message that says so; nothing is called and nothing changes.
  pub get_connection_full :
      (P : ConnectionPool s) (w : s.World)
      → AllLent P.pool
      → P.max_connections ≤ length P.pool
      → get_connection env P w ≡ (failed pool_is_full, P, w)
  unfolding get_connection
  get_connection_full P w all full =
      let busy = count_active-lent P.pool ∙ ap length (lent_all P.pool all) in
      acquire_full (length P.pool - count_active P.pool) (length P.pool) P w (omega arith) full

  -- Every connection that is asked for at the URL is made.
  abbrev pub Connects : Url → Type 0
  Connects U =
      (id : ℕ) (w : s.World) → (c : Connection s) × ((new env.cops id U w).0.connection ≡ some c)

  create_or_fail-got :
      (size : ℕ) (P : ConnectionPool s) (w : s.World)
      → Connects P.url
      → size < P.max_connections
      → (con : Connection s) × ((create_or_fail env size P w).0 ≡ got con)
  unfolding create_or_fail
  create_or_fail-got size P w connects room = elim (create-Creates env P w) [
    | inl (_, _, none_made) ↦
        let (c, made) = connects (env.malloc (ids P.pool)) w in absurd (cc (none_made, made))
    | inr (c, _, r, _) ↦ (set_available c false (connect env P w).1, ground arith)
  ]

  acquire-got :
      (available size : ℕ) (P : ConnectionPool s) (w : s.World)
      → Connects P.url
      → Distinct P.pool
      → size ≡ length P.pool
      → available + count_active P.pool ≡ length P.pool
      → count_active P.pool < P.max_connections
      → (con : Connection s) × ((acquire env available size P w).0 ≡ got con)
  acquire-got zero size P w connects d e a b =
      unfold acquire in create_or_fail-got size P w connects (omega arith)
  acquire-got (suc available) size P w connects d e a b =
      acquire_cases env (λ o. (con : Connection s) × (o.0 ≡ got con)) available size P w
        (λ all.
          let busy = count_active-lent P.pool ∙ ap length (lent_all P.pool all) in
          create_or_fail-got size P w connects (omega arith))
        (λ con t up. (con, refl))
        (λ con t down.
          let count = Taken-count env P w con t d in
          let shrinks = Taken-shrinks env P w con t d in
          let left = remove_id con.id (t.before ++ con ∷ t.after) in
          acquire-got available (length left) (record P { pool = left }) (free con (ping con w).1)
            connects (Taken-apart env P w con t d) refl (omega arith) (omega arith))

  -- Where the connections of a pool are at different addresses, fewer of them are lent than the maximum,
  -- and a connection to the database can be made whenever it is asked for, a connection is handed out,
  -- even if connections in the pool have been lost.
  pub get_connection-got :
      (P : ConnectionPool s) (w : s.World)
      → Connects P.url
      → Distinct P.pool
      → is_full P ≡ false
      → (con : Connection s) × ((get_connection env P w).0 ≡ got con)
  unfolding get_connection is_full
  get_connection-got P w connects d room =
      let some_idle = length-lent-le P.pool in
      let count = count_active-lent P.pool in
      acquire-got (length P.pool - count_active P.pool) (length P.pool) P w connects d refl
        (omega arith) (ground arith)

  create_or_fail-size :
      (size : ℕ) (P : ConnectionPool s) (w : s.World)
      → size ≡ length P.pool
      → length (create_or_fail env size P w).1.pool ≤ max (length P.pool) P.max_connections
  unfolding create_or_fail
  create_or_fail-size size P w e = elim (create-Creates env P w) [
    | inl (_, same, _) ↦ ground arith
    | inr (c, _, _, longer) ↦
        let n =
          ap length longer
          ∙ length-append P.pool (set_available c false (connect env P w).1 ∷ []) in
        ground arith
  ]

  acquire-size :
      (available size : ℕ) (P : ConnectionPool s) (w : s.World)
      → Distinct P.pool
      → size ≡ length P.pool
      → length (acquire env available size P w).1.pool ≤ max (length P.pool) P.max_connections
  acquire-size zero size P w d e = unfold acquire in create_or_fail-size size P w e
  acquire-size (suc available) size P w d e =
      acquire_cases env (λ o. length o.1.pool ≤ max (length P.pool) P.max_connections) available
        size P w (λ all. create_or_fail-size size P w e)
        (λ con t up.
          let n = Taken-length env P w con t in
          let m = length-append t.before (con ∷ t.after) in
          let k = length-append t.before t.after in omega arith)
        (λ con t down.
          let shrinks = Taken-shrinks env P w con t d in
          let left = remove_id con.id (t.before ++ con ∷ t.after) in
          let ih =
            acquire-size available (length left) (record P { pool = left })
              (free con (ping con w).1) (Taken-apart env P w con t d) refl in
          omega arith)

  -- A pool that holds no more connections than the maximum, at different addresses, holds no more
  -- than the maximum after a call of `_getConnection`.
  pub get_connection-size :
      (P : ConnectionPool s) (w : s.World)
      → Distinct P.pool
      → length P.pool ≤ P.max_connections
      → length (get_connection env P w).1.pool ≤ P.max_connections
  unfolding get_connection
  get_connection-size P w d h =
      let n = acquire-size (length P.pool - count_active P.pool) (length P.pool) P w d refl in
      omega arith
