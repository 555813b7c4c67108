-- ===== src/Db/Connection/Tests.antt =====
-- The theorems about connections, at a connection of the stub that is in a transaction.
use libzdb.Prelude.{◌≡◌, refl, true, false, List, [], ◌∷◌, some, none}
use libzdb.Prelude.Int.{pos}
use libzdb.Util.Str.{starts_with}
use libzdb.Db.Delegate.{TransactionType}
use libzdb.Db.Connection.{Connection, new, find_op, clear, rollback, is_in_transaction}
use libzdb.Db.Connection.Clearing.{IsClean}
use libzdb.Db.Connection.Transactions.{Call, level, run, run-level, rollback-IsClean}
use libzdb.Db.Stub.{plain, cop, url, connection}

abbrev lent_out : Connection plain
lent_out = connection 1 false

abbrev made : Connection plain
made = record (connection 7 true) {
  max_rows = pos 0;
  in_transaction = 0;
  last_accessed_time = 1000;
  result_set = none;
}

new_made : (new (cop ∷ []) 7 url 1000).0.connection ≡ some made
unfolding new find_op starts_with
new_made = refl

abbrev calls : List Call
calls =
    Call.begins TransactionType.default ∷ Call.rollbacks ∷ Call.begins TransactionType.default ∷ []

run-level_example :
    let (history, D, w') = run lent_out calls 1000 in D.in_transaction ≡ level 1 history
run-level_example = run-level lent_out calls 1000

inside : is_in_transaction lent_out ≡ true
unfolding is_in_transaction
inside = refl

rollback-IsClean_example :
    IsClean (rollback lent_out 1000).1
    × ((rollback lent_out 1000).2 ≡ (lent_out.op.rollback tt (clear lent_out 1000).1).1)
rollback-IsClean_example = rollback-IsClean lent_out 1000 inside
