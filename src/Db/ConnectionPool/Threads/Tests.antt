-- ===== src/Db/ConnectionPool/Threads/Tests.antt =====
-- The theorems about the pool under threads, at two clients that ask for a connection while the pool has
-- one that is available.
use libzdb.Prelude.{◌≤◌, refl, true, false, [], ◌∷◌, arith, length}
use libzdb.Db.Connection.{set_available}
use libzdb.Db.ConnectionPool.{get_connection, take_available, count_active}
use libzdb.Db.ConnectionPool.Members.{lent}
use libzdb.Db.ConnectionPool.Tests.{fresh, two_apart}
use libzdb.Db.ConnectionPool.Threads.{
  State, outside, looking, pinging, deciding, advance, begin_get, look, advances, Reach, here,
  later,
}
use libzdb.Db.ConnectionPool.Threads.Ownership.{IsExclusive, quiet-IsExclusive, Reach-IsExclusive}
use libzdb.Db.ConnectionPool.Threads.Growth.{Reach-size}
use libzdb.Db.ConnectionPool.Threads.Sequential.{Runs, returned, get_connection-Runs}
use libzdb.Db.Stub.{plain, connection, setting, pool_of, half}

abbrev quiet : State plain
quiet = record {
  pool = pool_of (connection 2 true ∷ []);
  world = 1000;
  clients = outside ∷ outside ∷ [];
}

-- Both have counted one available connection, and the first has taken it.
abbrev racing : State plain
racing = record {
  pool = pool_of (set_available (connection 2 true) false 1000 ∷ []);
  world = 1000;
  clients = pinging 1 1 2 ∷ deciding 1 ∷ [];
}

race : Reach setting quiet racing
unfolding advance begin_get look take_available count_active set_available
race =
    later
      (later
        (later (later here (advances [] (outside ∷ []) outside refl refl))
          (advances (looking 1 1 ∷ []) [] outside refl refl))
        (advances [] (looking 1 1 ∷ []) (looking 1 1) refl refl))
      (advances (pinging 1 1 2 ∷ []) [] (looking 1 1) refl refl)

Reach-IsExclusive_example : IsExclusive racing
Reach-IsExclusive_example =
    Reach-IsExclusive setting fresh
      (quiet-IsExclusive quiet ((tt, tt), unfold lent in refl) (refl, (refl, tt))) race

Reach-size_example : length racing.pool.pool ≤ 5
Reach-size_example = Reach-size setting quiet racing (omega arith) (refl, (refl, tt)) race

get_connection-Runs_example :
    Runs setting (outside, half, 1000) (returned setting (get_connection setting half 1000))
get_connection-Runs_example = get_connection-Runs setting half 1000 two_apart
