-- ===== src/Db/ConnectionPool/Tests.antt =====
-- The theorems about the pool, at pools of the stub's connections.
use libzdb.Prelude.{
  ℕ, ◌+◌, ◌-◌, ◌≤◌, ◌<◌, ◌≡◌, refl, true, false, List, [], ◌∷◌, some, arith, length, min,
}
use libzdb.Util.Str.{starts_with}
use libzdb.Db.Connection.{Connection, set_available, new, find_op, ping}
use libzdb.Db.Connection.Creating.{IsFresh}
use libzdb.Db.ConnectionPool.{
  ConnectionPool, got, get_connection, return_connection, reap_connections, stop, count_active,
  find_id, acquire, take_available, is_full,
}
use libzdb.Db.ConnectionPool.Members.{Distinct, lent}
use libzdb.Db.ConnectionPool.Rounds.{NotAmong, IsFreshAddress, Lends}
use libzdb.Db.ConnectionPool.Acquiring.{Connects, get_connection-Lends, get_connection-got}
use libzdb.Db.ConnectionPool.Reaping.{
  Reaps, NoneLate, spare, reap_connections-Sweeps, reap_connections-lent,
}
use libzdb.Db.ConnectionPool.Returning.{return_connection-IsFresh}
use libzdb.Db.ConnectionPool.LifeCycle.{Stops, return-get, start-stop}
use libzdb.Db.Stub.{plain, connection, above, setting, pool_of, half, url}

-- An address that is above all those in use is none of them.
above-NotAmong : (n : ℕ) (xs : List ℕ) → above xs ≤ n → NotAmong n xs
above-NotAmong n [] h = tt
above-NotAmong n (x ∷ xs) h = (λ e. omega arith, above-NotAmong n xs (omega arith))

pub fresh : IsFreshAddress setting
fresh xs = above-NotAmong (above xs) xs (omega arith)

pub two_apart : Distinct half.pool
two_apart = ((λ e. omega arith, tt), (tt, tt))

abbrev busy : ConnectionPool plain
busy = pool_of (connection 1 false ∷ connection 2 false ∷ connection 3 false ∷ [])

get_connection-Lends_example :
    Lends half.pool (get_connection setting half 1000).0 (get_connection setting half 1000).1.pool
get_connection-Lends_example = get_connection-Lends setting fresh half 1000 two_apart

connects : Connects setting url
unfolding new find_op starts_with
connects id w = (_, refl)

room : is_full half ≡ false
unfolding is_full count_active
room = refl

get_connection-got_example :
    (con : Connection plain) × ((get_connection setting half 1000).0 ≡ got con)
get_connection-got_example = get_connection-got setting half 1000 connects two_apart room

reap_connections-Sweeps_example :
    let (n, Q, w') = reap_connections half 1000 in
    (n ≤ spare half)
    × (n + length Q.pool ≡ 2)
    × Reaps 90 1000 half.pool Q.pool
    × (n < spare half → NoneLate 90 1000 Q.pool)
reap_connections-Sweeps_example = reap_connections-Sweeps half 1000

reap_connections-lent_example :
    let Q = (reap_connections half 1000).1 in
    (lent Q.pool ≡ lent half.pool)
    × (min (length half.pool - count_active half.pool) 1 ≤ length Q.pool - count_active Q.pool)
reap_connections-lent_example = reap_connections-lent half 1000

return_connection-IsFresh_example :
    (Q : ConnectionPool plain) × (w' : ℕ) × (return_connection half 1 1000 ≡ some (Q, w'))
    × Distinct Q.pool
    × (lent Q.pool ≡ [])
    × ((d : Connection plain) × (find_id 1 Q.pool ≡ some d) × IsFresh 1 w' d)
return_connection-IsFresh_example =
    return_connection-IsFresh half (connection 1 false) 1000 [] [] two_apart (unfold lent in refl)

pub handed_out :
    (get_connection setting half 1000).0 ≡ got (set_available (connection 2 true) false 1000)
unfolding get_connection acquire take_available count_active ping set_available
handed_out = refl

return-get_example :
    (Q : ConnectionPool plain) × (w' : ℕ) × (return_connection
        (get_connection setting half 1000).1
        2
        (get_connection setting half 1000).2
      ≡ some (Q, w'))
    × Distinct Q.pool
    × (lent Q.pool ≡ lent half.pool)
unfolding set_available
return-get_example =
    return-get setting fresh half 1000 (set_available (connection 2 true) false 1000) two_apart
      handed_out

start-stop_example : Stops setting half 1000 (stop half 1000)
start-stop_example = start-stop setting fresh half 1000 (λ e. cc)
