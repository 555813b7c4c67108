-- ===== src/Db/Sqlite/Session/Closing.antt =====
-- The loop that closes a database.
use libzdb.Prelude.{ℕ, zero, suc, ◌<◌, ◌≡◌, refl, Bool, true, false, some, arith, ◌==◌}
use libzdb.Db.Sqlite.Adapter.{Sqlite}
use libzdb.Db.Sqlite.Session.{Session, close, free}

module _ (q : Sqlite) where
  -- The world in which a call of `sqlite3_close` finds the database, after as many that were followed by a
  -- wait each.
  abbrev pub before_close : q.Db → ℕ → q.World → q.World
  before_close db zero w = w
  before_close db (suc k) w = before_close db k (q.usleep 10 (q.sqlite3_close db w).1)

  abbrev pub stays_busy : q.Db → ℕ → q.World → Bool
  stays_busy db k w = (q.sqlite3_close db (before_close db k w)).0 == q.status_busy

  close-before_close :
      (rounds k : ℕ) (db : q.Db) (w : q.World)
      → k < rounds
      → ((i : ℕ) → i < k → stays_busy db i w ≡ true)
      → stays_busy db k w ≡ false
      → close q rounds db w ≡ some (q.sqlite3_close db (before_close db k w)).1
  unfolding close
  close-before_close zero k db w lt before last = absurd (omega arith)
  close-before_close (suc rounds) zero db w lt before last = rw last refl
  close-before_close (suc rounds) (suc k) db w lt before last = rw (before 0 (omega arith)) (
      close-before_close rounds k db (q.usleep 10 (q.sqlite3_close db w).1) (omega arith)
        (λ i h. before (suc i) (omega arith)) last)

  -- Where the database is busy for k calls, and then no longer, any number of rounds above k closes it with
  -- the call that follows, so that the loop ends.
  pub free-before_close :
      (rounds k : ℕ) (C : Session q) (w : q.World)
      → k < rounds
      → ((i : ℕ) → i < k → stays_busy C.db i w ≡ true)
      → stays_busy C.db k w ≡ false
      → free q rounds C w ≡ some (q.sqlite3_close C.db (before_close C.db k w)).1
  unfolding free
  free-before_close rounds k C w lt before last = close-before_close rounds k C.db w lt before last
