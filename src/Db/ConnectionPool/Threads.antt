-- ===== src/Db/ConnectionPool/Threads.antt =====
-- The pool under threads. The mutex makes what stands between LOCK and END_LOCK one step; outside of it
-- each call of a function of src/db/Connection.c, and each use of the pool, is a step of its own, so that
-- the calls of several clients and the sweeps of the reaper interleave. `Connection_new` writes the pool's
-- message in the step that calls it. The pool is not started or stopped meanwhile.
pub mod Counting
pub mod Effects
pub mod Giving
pub mod Ownership
pub mod Growth
pub mod Sequential
mod Tests
use libzdb.Prelude.{
  ℕ, zero, suc, ◌-◌, ◌≡◌, Bool, true, false, List, [], ◌∷◌, ◌++◌, Option, some, none, Text, ltb,
  if◌then◌else◌, length,
}
use libzdb.Db.Delegate.{System}
use libzdb.Db.Connection.{Connection, Created}
use libzdb.Db.Connection
use libzdb.Db.ConnectionPool.{
  ConnectionPool, Setting, ids, count_active, take_available, remove_id, find_id, update_id, clean,
  noted, reap_connections, creation_error,
}

-- Where a client is. In `_getConnection` it has its own `size` and `availableConnections`; a connection
-- that is in the pool it knows by its address, one that is not it has for itself; a message that it has
-- read is its own.
pub data Phase (s : System) : Type 0 where
  outside : Phase s
  looking : ℕ → ℕ → Phase s
  pinging : ℕ → ℕ → ℕ → Phase s
  removing : ℕ → ℕ → ℕ → Phase s
  freeing : ℕ → ℕ → Connection s → Phase s
  deciding : ℕ → Phase s
  connecting : Phase s
  failing : Phase s
  reporting : Text → Phase s
  pushing : Connection s → Phase s
  holding : ℕ → Phase s
  returning : ℕ → Phase s
  -- It has used the address of a connection that was freed.
  dangling : Phase s

pub record State (s : System) : Type 0 where
  pub pool : ConnectionPool s
  pub world : s.World
  pub clients : List (Phase s)

module _ {s : System} where
  -- The addresses of the connections that a client has for itself.
  abbrev pub private_ids : List (Phase s) → List ℕ
  private_ids [] = []
  private_ids (freeing size available c ∷ ps) = c.id ∷ private_ids ps
  private_ids (pushing c ∷ ps) = c.id ∷ private_ids ps
  private_ids (p ∷ ps) = private_ids ps

  -- What `malloc` is told to be in use.
  abbrev pub live : State s → List ℕ
  live S = ids S.pool.pool ++ private_ids S.clients

-- A step of a client: where it is then, the pool and the world.
abbrev pub Moved : System → Type 0
Moved s = Phase s × ConnectionPool s × s.World

module _ {s : System} where
  -- `Connection_ping`, outside of the lock.
  pub ping_at : ℕ → ℕ → ℕ → ConnectionPool s → s.World → Moved s
  ping_at size available id P w = elim (find_id id P.pool) [
    | none ↦ (dangling, P, w)
    | some c ↦
        let (alive, w') = Connection.ping c w in
        (if alive then holding id else removing size available id, P, w')
  ]

  -- The connection that did not answer is taken out of the pool.
  pub remove_at : ℕ → ℕ → ConnectionPool s → s.World → Moved s
  remove_at available id P w = elim (find_id id P.pool) [
    | none ↦ (dangling, P, w)
    | some c ↦
        let left = remove_id id P.pool in
        (freeing (length left) (available - 1) c, record P { pool = left }, w)
  ]

  -- `_getAvailableConnection`
  pub look : ℕ → ℕ → ConnectionPool s → s.World → Moved s
  look size available P w = elim (take_available P.pool w) [
    | none ↦ (deciding size, P, w)
    | some (con, cs) ↦ (pinging size available con.id, record P { pool = cs }, w)
  ]

  -- The last step of `ConnectionPool_returnConnection`.
  pub restore : ℕ → ConnectionPool s → s.World → Moved s
  restore id P w = elim (find_id id P.pool) [
    | none ↦ (dangling, P, w)
    | some c ↦
        let d = Connection.set_available c true w in
        (outside, record P { pool = update_id id d P.pool }, w)
  ]

  -- The rest of `_createConnection`.
  pub push : Connection s → ConnectionPool s → s.World → Moved s
  push c P w =
      let con = Connection.set_available c false w in
      (holding con.id, record P { pool = P.pool ++ con ∷ [] }, w)

  -- The first part of `ConnectionPool_returnConnection`, on the connection itself.
  pub begin_return : ℕ → ConnectionPool s → s.World → Moved s
  begin_return id P w = elim (find_id id P.pool) [
    | none ↦ (dangling, P, w)
    | some c ↦
        let (d, w') = clean c w in (returning id, record P { pool = update_id id d P.pool }, w')
  ]

  -- What `_createConnection` does with `P->error` where there is no connection, outside of the lock:
  -- it is printed into the buffer of the client, and then freed. The pool has one `error` for all clients.
  pub report : ConnectionPool s → s.World → Moved s
  report P w = (reporting (creation_error P.error), P, w)

  pub forget : ConnectionPool s → s.World → Moved s
  forget P w = (outside, record P { error = none }, w)

  -- A round of `_doSweep`, behind the wait.
  pub sweep : ConnectionPool s → s.World → ConnectionPool s × s.World
  sweep P w = let (n, Q, w') = reap_connections P w in if P.stopped then (P, w) else (Q, w')

  -- The first lock of `_getConnection`.
  pub begin_get : ConnectionPool s → s.World → Moved s
  begin_get P w = (looking (length P.pool) (length P.pool - count_active P.pool), P, w)

module _ {s : System} (env : Setting s) where
  -- What `_createConnection` has once `Connection_new` has returned. What a driver throws leaves the call.
  pub settle : ConnectionPool s → Created s → s.World → Moved s
  settle P c w =
      let Q = noted env P c.message in
      elim c.connection [
        | none ↦ (elim c.thrown [ none ↦ failing | some e ↦ outside ], Q, w)
        | some con ↦ (pushing con, Q, w)
      ]

  -- The next step of a client, given the addresses in use. A client that is outside asks for a
  -- connection, and one that holds a connection returns it.
  pub advance : Phase s → List ℕ → ConnectionPool s → s.World → Moved s
  advance outside used P w = begin_get P w
  advance (looking size zero) used P w = (deciding size, P, w)
  advance (looking size (suc available)) used P w = look size (suc available) P w
  advance (pinging size available id) used P w = ping_at size available id P w
  advance (removing size available id) used P w = remove_at available id P w
  advance (freeing size available c) used P w = (looking size available, P, Connection.free c w)
  advance (deciding size) used P w =
      (if ltb size P.max_connections then connecting else outside, P, w)
  advance connecting used P w =
      let (c, w') = Connection.new env.cops (env.malloc used) P.url w in settle P c w'
  advance failing used P w = report P w
  advance (reporting message) used P w = forget P w
  advance (pushing c) used P w = push c P w
  advance (holding id) used P w = begin_return id P w
  advance (returning id) used P w = restore id P w
  advance dangling used P w = (dangling, P, w)

  abbrev pub moved : List (Phase s) → List (Phase s) → Moved s → State s
  moved before after (p, P, w) = record { pool = P; world = w; clients = before ++ p ∷ after }

  -- One of the clients goes on; or uses the connection that it holds, which leaves its address and its
  -- lending; or the reaper sweeps; or something else happens in the world.
  pub data Step (S T : State s) : Type 0 where
    advances :
        (before after : List (Phase s)) (p : Phase s)
        → S.clients ≡ before ++ p ∷ after
        → T ≡ moved before after (advance p (live S) S.pool S.world)
        → Step S T
    uses :
        (before after : List (Phase s)) (id : ℕ) (c d : Connection s) (w : s.World)
        → S.clients ≡ before ++ holding id ∷ after
        → find_id id S.pool.pool ≡ some c
        → d.id ≡ c.id
        → d.is_available ≡ c.is_available
        → T ≡ record S { pool = record S.pool { pool = update_id id d S.pool.pool }; world = w }
        → Step S T
    sweeps :
        T ≡ record S { pool = (sweep S.pool S.world).0; world = (sweep S.pool S.world).1 }
        → Step S T
    elsewhere : (w : s.World) → T ≡ record S { world = w } → Step S T

  pub data Reach (S : State s) : State s → Type 0 where
    here : Reach S S
    later : {T U : State s} → Reach S T → Step T U → Reach S U
