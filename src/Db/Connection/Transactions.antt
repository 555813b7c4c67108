-- ===== src/Db/Connection/Transactions.antt =====
-- The transaction counter of a connection under begin, commit and rollback.
use libzdb.Prelude.{
  ℕ, suc, ◌≡◌, refl, ◌∙◌, sym, Bool, true, false, List, [], ◌∷◌, arith, Result, ok, err,
}
use libzdb.Db.Delegate.{System, TransactionType}
use libzdb.Db.Connection.{
  Connection, Outcome, clear, begin_transaction_type, commit, rollback, end_transaction,
  is_in_transaction,
}
use libzdb.Db.Connection.Clearing.{IsClean, clear-IsClean}

pub data Call : Type 0 where
  begins : TransactionType → Call
  commits : Call
  rollbacks : Call

abbrev pub succeeded {ℓ} : {A : Type ℓ} → Result A → Bool
succeeded (ok a) = true
succeeded (err e) = false

-- The level that a history of calls leads to: what has begun since the last commit or rollback, be it
-- that these succeeded or not.
abbrev pub level : ℕ → List (Call × Bool) → ℕ
level n [] = n
level n ((begins type, true) ∷ calls) = level (suc n) calls
level n ((begins type, false) ∷ calls) = level n calls
level n ((commits, b) ∷ calls) = level 0 calls
level n ((rollbacks, b) ∷ calls) = level 0 calls

module _ {s : System} where
  perform : Connection s → Call → s.World → Outcome s (Unit {0})
  perform C (begins type) w = begin_transaction_type C type w
  perform C commits w = commit C w
  perform C rollbacks w = rollback C w

  -- A run of calls, each after the one before whether that threw or not, and what each came to.
  pub run : Connection s → List Call → s.World → List (Call × Bool) × Connection s × s.World
  unfolding perform
  run C [] w = ([], C, w)
  run C (call ∷ calls) w =
      let (r, D, w') = perform C call w in
      let (history, E, w'') = run D calls w' in ((call, succeeded r) ∷ history, E, w'')

  end_transaction-zero :
      (C : Connection s) (w : s.World) → (end_transaction C w).0.in_transaction ≡ 0
  unfolding end_transaction is_in_transaction
  end_transaction-zero C w = ground arith

  -- A rollback leaves no transaction, also where the driver fails and it throws.
  pub rollback-zero : (C : Connection s) (w : s.World) → (rollback C w).1.in_transaction ≡ 0
  unfolding rollback
  rollback-zero C w = ground (arith, end_transaction-zero C w)

  end_transaction-id : (C : Connection s) (w : s.World) → (end_transaction C w).0.id ≡ C.id
  unfolding end_transaction
  end_transaction-id C w = ground (arith, clear-IsClean C w)

  pub rollback-id : (C : Connection s) (w : s.World) → (rollback C w).1.id ≡ C.id
  unfolding rollback
  rollback-id C w = ground (arith, end_transaction-id C w)

  end_transaction-lent :
      (C : Connection s) (w : s.World) → (end_transaction C w).0.is_available ≡ C.is_available
  unfolding end_transaction
  end_transaction-lent C w = ground (arith, clear-IsClean C w)

  pub rollback-lent :
      (C : Connection s) (w : s.World) → (rollback C w).1.is_available ≡ C.is_available
  unfolding rollback
  rollback-lent C w = ground (arith, end_transaction-lent C w)

  pub idle_level : (C : Connection s) → is_in_transaction C ≡ false → C.in_transaction ≡ 0
  unfolding is_in_transaction
  idle_level C h = ground arith

  -- So does a commit.
  pub commit-zero : (C : Connection s) (w : s.World) → (commit C w).1.in_transaction ≡ 0
  unfolding commit
  commit-zero C w = ground arith

  perform-level :
      (C : Connection s) (call : Call) (w : s.World) (calls : List (Call × Bool))
      → level C.in_transaction ((call, succeeded (perform C call w).0) ∷ calls)
        ≡ level (perform C call w).1.in_transaction calls
  unfolding perform begin_transaction_type
  perform-level C (begins type) w calls = ground arith
  perform-level C commits w calls = rw (commit-zero C w)
  perform-level C rollbacks w calls = rw (rollback-zero C w)

  -- After any run of calls the counter is the level that the history of their outcomes leads to.
  pub run-level :
      (C : Connection s) (calls : List Call) (w : s.World)
      → let (history, D, w') = run C calls w in D.in_transaction ≡ level C.in_transaction history
  unfolding run
  run-level C [] w = refl
  run-level C (call ∷ calls) w =
      let (r, D, w') = perform C call w in
      run-level D calls w' ∙ sym (perform-level C call w (run D calls w').0)

  -- A rollback in a transaction clears the connection before the driver is called, and leaves it
  -- clean.
  pub rollback-IsClean :
      (C : Connection s) (w : s.World)
      → is_in_transaction C ≡ true
      → IsClean (rollback C w).1 × ((rollback C w).2 ≡ (C.op.rollback C.delegate (clear C w).1).1)
  unfolding rollback end_transaction
  rollback-IsClean C w h = ground (arith, clear-IsClean C w)
