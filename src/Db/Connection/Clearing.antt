-- ===== src/Db/Connection/Clearing.antt =====
-- What `Connection_clear` leaves of a connection.
use libzdb.Prelude.{◌≡◌, refl, [], none, arith}
use libzdb.Prelude.Int.{pos}
use libzdb.Db.Delegate.{System}
use libzdb.Db.Connection.{Connection, clear, free_result_set, free_prepared, reset_timeout}

module _ {s : System} where
  -- No results are pending, no statement is kept, and the properties have their default values.
  pub record IsClean (C : Connection s) : Type 0 where
    pub no_result : C.result_set ≡ none
    pub no_statement : C.prepared ≡ []
    pub no_limit : C.max_rows ≡ pos 0
    pub no_timeout : C.query_timeout ≡ pos 0
    pub default_fetch : C.fetch_size ≡ C.fetch_size_default

  -- The two are the same connection, in the same state of lending and of transaction.
  pub record IsSame (C D : Connection s) : Type 0 where
    pub id : D.id ≡ C.id
    pub op : D.op ≡ C.op
    pub url : D.url ≡ C.url
    pub delegate : D.delegate ≡ C.delegate
    pub fetch_size_default : D.fetch_size_default ≡ C.fetch_size_default
    pub is_available : D.is_available ≡ C.is_available
    pub in_transaction : D.in_transaction ≡ C.in_transaction
    pub last_accessed_time : D.last_accessed_time ≡ C.last_accessed_time

  pub IsSame-refl : (C : Connection s) → IsSame C C
  IsSame-refl C = record {
    id = refl;
    op = refl;
    url = refl;
    delegate = refl;
    fetch_size_default = refl;
    is_available = refl;
    in_transaction = refl;
    last_accessed_time = refl;
  }

  free_result_set-none :
      (C : Connection s) (w : s.World)
      → ((free_result_set C w).0.result_set ≡ none)
        × ((free_result_set C w).0.fetch_size_default ≡ C.fetch_size_default)
        × IsSame C (free_result_set C w).0
  unfolding free_result_set
  free_result_set-none C w = ground arith

  reset_timeout-zero :
      (C : Connection s) (w : s.World)
      → ((reset_timeout C w).0.query_timeout ≡ pos 0)
        × ((reset_timeout C w).0.result_set ≡ C.result_set)
        × ((reset_timeout C w).0.prepared ≡ C.prepared)
        × ((reset_timeout C w).0.max_rows ≡ C.max_rows)
        × IsSame C (reset_timeout C w).0
  unfolding reset_timeout
  reset_timeout-zero C w = ground arith

  -- `Connection_clear` frees the pending results and the statements and restores the properties; it
  -- touches neither the lending nor the transaction.
  pub clear-IsClean :
      (C : Connection s) (w : s.World) → IsClean (clear C w).0 × IsSame C (clear C w).0
  unfolding clear
  clear-IsClean C w = ground arith

  -- Clearing a clean connection calls nothing and changes nothing.
  pub clear_again : (C : Connection s) (w : s.World) → IsClean C → clear C w ≡ (C, w)
  unfolding clear free_result_set free_prepared reset_timeout
  clear_again C w v = ground arith

  -- However a connection was used, clearing it a second time does nothing more.
  pub clear-clear : (C : Connection s) (w : s.World) → clear (clear C w).0 (clear C w).1 ≡ clear C w
  clear-clear C w = clear_again (clear C w).0 (clear C w).1 (clear-IsClean C w).0
