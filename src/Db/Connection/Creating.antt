-- ===== src/Db/Connection/Creating.antt =====
-- Making a connection, and marking it.
use libzdb.Prelude.{ℕ, ◌≡◌, refl, Bool, true, List, some, none, arith}
use libzdb.Net.Url.{Url}
use libzdb.Db.Delegate.{System, Cop}
use libzdb.Db.Connection.{Connection, new, set_available, find_op, unsupported}
use libzdb.Db.Connection.Clearing.{IsClean}

module _ {s : System} where
  -- A connection that was just made for an address, at a time.
  pub record IsFresh (id time : ℕ) (C : Connection s) : Type 0 where
    pub at : C.id ≡ id
    pub idle : C.is_available ≡ true
    pub no_transaction : C.in_transaction ≡ 0
    pub clean : IsClean C
    pub stamped : C.last_accessed_time ≡ time

  -- A connection that `Connection_new` makes is at its address, available, clean and in no
  -- transaction.
  pub new-IsFresh :
      (cops : List (Cop s)) (id : ℕ) (url : Url) (w : s.World) (C : Connection s)
      → (new cops id url w).0.connection ≡ some C
      → IsFresh id (s.now w) C
  unfolding new
  new-IsFresh cops id url w C h = ground arith

  -- Where no driver that is built in serves the protocol there is no connection, but a message, and
  -- nothing was called.
  pub new_unsupported :
      (cops : List (Cop s)) (id : ℕ) (url : Url) (w : s.World)
      → find_op cops url.protocol ≡ none
      → ((new cops id url w).0.connection ≡ none)
        × ((new cops id url w).0.message ≡ some (unsupported url.protocol))
        × ((new cops id url w).1 ≡ w)
  unfolding new
  new_unsupported cops id url w h = ground arith

  pub set_available_lem :
      (C : Connection s) (b : Bool) (w : s.World)
      → ((set_available C b w).id ≡ C.id)
        × ((set_available C b w).is_available ≡ b)
        × ((set_available C b w).last_accessed_time ≡ s.now w)
  unfolding set_available
  set_available_lem C b w = (refl, refl, refl)

  -- Marking a connection changes nothing else of it.
  pub set_available-IsClean :
      (C : Connection s) (b : Bool) (w : s.World)
      → IsClean C
      → IsClean (set_available C b w) × ((set_available C b w).in_transaction ≡ C.in_transaction)
  unfolding set_available
  set_available-IsClean C b w v = ground arith
