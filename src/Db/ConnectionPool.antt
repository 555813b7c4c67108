-- ===== src/Db/ConnectionPool.antt =====
-- src/db/ConnectionPool.c, one call at a time. The pool's vector is the list of its contents, and holds
-- the connections themselves: a connection that is lent out is known to its client by its address, and
-- a function that takes one takes the address. A sweep of the reaper is a call of `reap_connections`; the
-- mutex is for Threads.
pub mod Members
pub mod Rounds
pub mod Acquiring
pub mod Reaping
pub mod Returning
pub mod Filling
pub mod LifeCycle
pub mod Threads
pub mod Tests
use libzdb.Prelude.{
  ℕ, zero, suc, ◌+◌, ◌-◌, Bool, true, false, ◌&&◌, ◌||◌, not, List, [], ◌∷◌, ◌++◌, Option, some,
  none, Text, Result, ok, err, Exception, assert_exception, sql_exception, take, ltb, leb, ◌==◌,
  if◌then◌else◌, length,
}
use libzdb.Prelude.Int.{ℤ, pos, negsuc}
use libzdb.Util.Str.{lit, is_equal}
use libzdb.Net.Url.{Url}
use libzdb.Db.Delegate.{System, Cop}
use libzdb.Db.Connection.{Connection, Created}
use libzdb.Db.Connection

pub data PoolType : Type 0 where
  no_type mysql postgresql sqlite oracle : PoolType

-- `struct ConnectionPool_S`. `reaper` says whether the thread's handle is set, and `locked` that a call has
-- left with the mutex locked, after which every other call that locks it waits for ever; the functions below
-- are those calls of a pool that is not locked.
pub record ConnectionPool (s : System) : Type 0 where
  pub url : Url
  pub filled : Bool
  pub do_sweep : Bool
  pub error : Option Text
  pub pool : List (Connection s)
  pub reaper : Bool
  pub sweep_interval : ℕ
  pub max_connections : ℕ
  pub stopped : Bool
  pub connection_timeout : ℕ
  pub initial_connections : ℕ
  pub type : PoolType
  pub locked : Bool

-- What the pool takes from its surroundings: the table of the drivers that are built in, and the
-- addresses of new connections, given those that are in use.
pub record Setting (s : System) : Type 0 where
  pub cops : List (Cop s)
  pub malloc : List ℕ → ℕ

-- A connection handed out, or the message where there is none, or what the driver throws.
pub data Acquired (s : System) : Type 0 where
  got : Connection s → Acquired s
  failed : Text → Acquired s
  threw : Exception → Acquired s

-- The outcome of a function of the pool, the pool and the world.
abbrev pub Outcome : System → Type 0 → Type 0
Outcome s A = A × ConnectionPool s × s.World

-- `_getType`
get_type : Url → PoolType
get_type U =
    if is_equal U.protocol (some (lit "mysql"))
    then mysql
    else if is_equal U.protocol (some (lit "postgresql"))
    then postgresql
    else if is_equal U.protocol (some (lit "sqlite"))
    then sqlite
    else if is_equal U.protocol (some (lit "oracle"))
    then oracle
    else no_type

module _ {s : System} where
  -- `ConnectionPool_new`
  pub new : Url → ConnectionPool s
  unfolding get_type
  new U = record {
    url = U;
    filled = false;
    do_sweep = true;
    error = none;
    pool = [];
    reaper = false;
    sweep_interval = 60;
    max_connections = 20;
    stopped = false;
    connection_timeout = 90;
    initial_connections = 5;
    type = get_type U;
    locked = false;
  }

  abbrev pub ids : List (Connection s) → List ℕ
  ids [] = []
  ids (c ∷ cs) = c.id ∷ ids cs

  -- The number of connections that are lent out: `_active`, a `Vector_map` of `_mapActive`.
  pub count_active : List (Connection s) → ℕ
  count_active [] = 0
  count_active (c ∷ cs) = let n = count_active cs in if c.is_available then n else suc n

  -- `_drainPool`, which pops: the last connection goes first.
  pub drain : List (Connection s) → s.World → s.World
  drain [] w = w
  drain (c ∷ cs) w = Connection.free c (drain cs w)

  -- The first connection that is available, now marked as lent, and the pool with it.
  pub take_available : List (Connection s) → s.World → Option (Connection s × List (Connection s))
  take_available [] w = none
  take_available (c ∷ cs) w =
      let rest = take_available cs w in
      let taken = Connection.set_available c false w in
      if c.is_available
      then some (taken, taken ∷ cs)
      else elim rest [ none ↦ none | some (d, ds) ↦ some (d, c ∷ ds) ]

  -- `Vector_remove` at `Vector_indexOf`: the first connection at that address is taken out.
  pub remove_id : ℕ → List (Connection s) → List (Connection s)
  remove_id id [] = []
  remove_id id (c ∷ cs) = let rest = remove_id id cs in if c.id == id then cs else c ∷ rest

-- `snprintf` into the STRLEN cells of the error buffer.
abbrev in_buffer : Text → Text
in_buffer t = take 255 t

pub creation_error : Option Text → Text
creation_error none = lit "Failed to create a connection -- unknown error"
creation_error (some []) = lit "Failed to create a connection -- unknown error"
creation_error (some (c ∷ t)) = in_buffer (lit "Failed to create a connection -- " ++ (c ∷ t))

pub start_error : Option Text → Text
start_error none = lit "Failed to start connection pool -- (null)"
start_error (some e) = lit "Failed to start connection pool -- " ++ e

pub pool_is_full : Text
pool_is_full = lit "Failed to get a connection -- pool is full (max connections reached)"

module _ {s : System} (env : Setting s) where
  -- `Connection_new(P, &P->error)`
  abbrev pub connect : ConnectionPool s → s.World → Created s × s.World
  connect P w = Connection.new env.cops (env.malloc (ids P.pool)) P.url w

  -- What `*error` holds afterwards.
  abbrev noted : ConnectionPool s → Option Text → ConnectionPool s
  noted P none = P
  noted P (some e) = record P { error = some e }

  -- `_fillPool`: the rounds that are left, and the number of connections made so far.
  pub fill : ℕ → ℕ → ConnectionPool s → s.World → Outcome s (Result Bool)
  fill zero i P w = (ok true, P, w)
  fill (suc rounds) i P w =
      let (c, w') = connect P w in
      let Q = noted P c.message in
      elim c.connection [
        | none ↦ elim c.thrown [
          | some e ↦ (err e, Q, w')
          | none ↦ if ltb 0 i then (ok true, record Q { error = none }, w') else (ok false, Q, w')
        ]
        | some con ↦ fill rounds (suc i) (record Q { pool = Q.pool ++ con ∷ [] }) w'
      ]

  -- `_createConnection`
  pub create : ConnectionPool s → s.World → Outcome s (Acquired s)
  create P w =
      let (c, w') = connect P w in
      let Q = noted P c.message in
      elim c.connection [
        | none ↦ elim c.thrown [
          | some e ↦ (threw e, Q, w')
          | none ↦ (failed (creation_error Q.error), record Q { error = none }, w')
        ]
        | some con ↦
            let lent = Connection.set_available con false w' in
            (got lent, record Q { pool = Q.pool ++ lent ∷ [] }, w')
      ]

  -- The end of `_getConnection`, where no connection of the pool would do.
  pub create_or_fail : ℕ → ConnectionPool s → s.World → Outcome s (Acquired s)
  create_or_fail size P w =
      let created = create P w in
      if ltb size P.max_connections then created else (failed pool_is_full, P, w)

  -- The loop of `_getConnection`, with the number of connections that were available and are not yet
  -- tried, and the size of the pool as it was last seen.
  pub acquire : ℕ → ℕ → ConnectionPool s → s.World → Outcome s (Acquired s)
  acquire zero size P w = create_or_fail size P w
  acquire (suc available) size P w = elim (take_available P.pool w) [
    | none ↦ create_or_fail size P w
    | some (con, cs) ↦
        let (alive, w') = Connection.ping con w in
        let left = remove_id con.id cs in
        let next =
          acquire available (length left) (record P { pool = left }) (Connection.free con w') in
        if alive then (got con, record P { pool = cs }, w') else next
  ]

  -- `_getConnection`
  pub get_connection : ConnectionPool s → s.World → Outcome s (Acquired s)
  get_connection P w = acquire (length P.pool - count_active P.pool) (length P.pool) P w

  -- `ConnectionPool_getConnection`
  pub get_connection_or_null :
      ConnectionPool s → s.World → Outcome s (Result (Option (Connection s)))
  get_connection_or_null P w =
      let (r, Q, w') = get_connection P w in
      (elim r [ got con ↦ ok (some con) | failed message ↦ ok none | threw e ↦ err e ], Q, w')

  -- `ConnectionPool_getConnectionOrException`
  unfoldable pub get_connection_or_exception :
      ConnectionPool s → s.World → Outcome s (Result (Connection s))
  get_connection_or_exception P w =
      let (r, Q, w') = get_connection P w in
      (
        elim r [
          | got con ↦ ok con
          | failed message ↦ err (sql_exception message)
          | threw e ↦ err e
        ],
        Q,
        w',
      )

  -- `ConnectionPool_start`. Where the pool was filled already, nothing is done. What a driver throws as the
  -- pool is filled passes END_LOCK.
  pub start : ConnectionPool s → s.World → Outcome s (Result (Unit {0}))
  start P w =
      let Q = record P { stopped = false } in
      let (filled, R, w') = fill Q.initial_connections 0 Q w in
      let started = record R { filled = true; reaper = if R.do_sweep then true else R.reaper } in
      if P.filled then (ok tt, Q, w) else elim filled [
        | err e ↦ (err e, record R { locked = true }, w')
        | ok true ↦ (ok tt, started, w')
        | ok false ↦ (err (sql_exception (start_error R.error)), record R { filled = false }, w')
      ]

module _ {s : System} where
  -- `ConnectionPool_stop`, and whether the reaper thread is signalled and joined.
  pub stop : ConnectionPool s → s.World → Outcome s Bool
  stop P w =
      let Q = record P { stopped = true } in
      if P.filled
      then (Q.do_sweep && Q.reaper, record Q { filled = false; pool = [] }, drain Q.pool w)
      else (false, Q, w)

  -- `ConnectionPool_free`, which stops the pool first unless it is stopped, and then frees its vector;
  -- connections that are still in it are lost.
  pub free : ConnectionPool s → s.World → s.World
  unfolding stop
  free P w = if P.stopped then w else (stop P w).2

  pub set_initial_connections : ConnectionPool s → ℤ → Result (ConnectionPool s)
  set_initial_connections P (negsuc n) = err assert_exception
  set_initial_connections P (pos n) = ok (record P { initial_connections = n })

  pub set_max_connections : ConnectionPool s → ℤ → Result (ConnectionPool s)
  set_max_connections P (negsuc n) = err assert_exception
  set_max_connections P (pos n) =
      if leb P.initial_connections n
      then ok (record P { max_connections = n })
      else err assert_exception

  pub set_connection_timeout : ConnectionPool s → ℤ → Result (ConnectionPool s)
  set_connection_timeout P (negsuc n) = err assert_exception
  set_connection_timeout P (pos zero) = err assert_exception
  set_connection_timeout P (pos (suc n)) = ok (record P { connection_timeout = suc n })

  pub set_reaper : ConnectionPool s → ℤ → ConnectionPool s
  set_reaper P (negsuc n) = record P { do_sweep = false }
  set_reaper P (pos zero) = record P { do_sweep = false }
  set_reaper P (pos (suc n)) = record P { do_sweep = true; sweep_interval = suc n }

  -- The connection at an address, and the pool with another put in its place.
  pub find_id : ℕ → List (Connection s) → Option (Connection s)
  find_id id [] = none
  find_id id (c ∷ cs) = let rest = find_id id cs in if c.id == id then some c else rest

  pub update_id : ℕ → Connection s → List (Connection s) → List (Connection s)
  update_id id d [] = []
  update_id id d (c ∷ cs) = let rest = update_id id d cs in if c.id == id then d ∷ cs else c ∷ rest

  -- The connection that is returned is rolled back if it is in a transaction, whatever comes of that,
  -- and then cleared.
  pub clean : Connection s → s.World → Connection s × s.World
  clean c w =
      let (r, rolled, w1) = Connection.rollback c w in
      let c1 = if Connection.is_in_transaction c then rolled else c in
      let w2 = if Connection.is_in_transaction c then w1 else w in Connection.clear c1 w2

  -- Then it is marked as available.
  pub give_back : Connection s → s.World → Connection s × s.World
  unfolding clean
  give_back c w = let (c', w') = clean c w in (Connection.set_available c' true w', w')

  -- `ConnectionPool_returnConnection`, of the connection at an address; `none` is the use of a
  -- connection that was freed.
  pub return_connection : ConnectionPool s → ℕ → s.World → Option (ConnectionPool s × s.World)
  return_connection P id w = elim (find_id id P.pool) [
    | none ↦ none
    | some c ↦ let (d, w') = give_back c w in some (record P { pool = update_id id d P.pool }, w')
  ]

  -- The loop of `_reapConnections` over the connections that it has not looked at: it may close as many
  -- as the first argument says, and closes those that are available and have not been used since
  -- the time out, or do not answer.
  pub reap : ℕ → ℕ → ℕ → List (Connection s) → s.World → ℕ × List (Connection s) × s.World
  reap zero timeout now cs w = (0, cs, w)
  reap (suc budget) timeout now [] w = (0, [], w)
  reap (suc budget) timeout now (c ∷ cs) w =
      let (alive, pinged) = Connection.ping c w in
      let late = ltb (c.last_accessed_time + timeout) now in
      let w' = if late then w else pinged in
      let (n, rest, after) = reap budget timeout now cs (Connection.free c w') in
      let (m, rest', after') =
        reap (suc budget) timeout now cs (if c.is_available then pinged else w) in
      if c.is_available && (late || not alive) then (suc n, rest, after) else (m, c ∷ rest', after')

  -- `ConnectionPool_reapConnections`: the number of connections that were closed.
  pub reap_connections : ConnectionPool s → s.World → Outcome s ℕ
  reap_connections P w =
      let spare = length P.pool - count_active P.pool - P.initial_connections in
      let (n, cs, w') = reap spare P.connection_timeout (s.now w) P.pool w in
      (n, record P { pool = cs }, w')

  pub size : ConnectionPool s → ℕ
  size P = length P.pool

  pub active : ConnectionPool s → ℕ
  active P = count_active P.pool

  pub is_full : ConnectionPool s → Bool
  is_full P = leb P.max_connections (count_active P.pool)
