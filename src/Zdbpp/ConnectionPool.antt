-- ===== src/Zdbpp/ConnectionPool.antt =====
-- The class `ConnectionPool` of src/zdbpp.h, with `close` and the destructor of `Connection`. Its URL is
-- that of the pool of the library.
pub mod Scope
use libzdb.Prelude.{
  ℕ, Bool, Option, some, none, Text, Result, ok, err, Exception, ltb, if◌then◌else◌,
}
use libzdb.Prelude.Int.{ℤ}
use libzdb.Util.Str.{lit}
use libzdb.Net.Url.{Url}
use libzdb.Db.Delegate.{System}
use libzdb.Db.ConnectionPool as C
use libzdb.Db.ConnectionPool.{ConnectionPool, Setting}
use libzdb.Zdbpp.Wrapper.{Cpp, returned, threw, said, ended, wrap, wrap_return}

abbrev pub Outcome : System → Type 0 → Type 0
Outcome s A = Cpp A × ConnectionPool s × s.World

-- The field `t_` of a `Connection`: the address of a connection of the pool, or nothing once it is closed.
abbrev pub Handle : Type 0
Handle = Option ℕ

active_connections : Text
active_connections =
    lit "Trying to stop the pool with active Connections. Please close all active Connections first"

module _ {s : System} where
  -- A setter of the library, which may throw and is called without the macro.
  unfoldable pub set_by :
      ConnectionPool s → Result (ConnectionPool s) → Cpp (Unit {0}) × ConnectionPool s
  set_by P (ok Q) = (returned tt, Q)
  set_by P (err e) = (ended e, P)

  pub new : Option Url → Cpp (ConnectionPool s)
  new none = said (lit "Invalid URL")
  new (some url) = returned (C.new url)

  pub free : ConnectionPool s → s.World → s.World
  free P w = C.free P w

  pub set_initial_connections : ConnectionPool s → ℤ → Cpp (Unit {0}) × ConnectionPool s
  unfolding set_by
  set_initial_connections P n = set_by P (C.set_initial_connections P n)

  pub set_max_connections : ConnectionPool s → ℤ → Cpp (Unit {0}) × ConnectionPool s
  unfolding set_by
  set_max_connections P n = set_by P (C.set_max_connections P n)

  pub set_connection_timeout : ConnectionPool s → ℤ → Cpp (Unit {0}) × ConnectionPool s
  unfolding set_by
  set_connection_timeout P n = set_by P (C.set_connection_timeout P n)

  pub set_reaper : ConnectionPool s → ℤ → ConnectionPool s
  set_reaper P interval = C.set_reaper P interval

  pub size : ConnectionPool s → ℕ
  size P = C.size P

  pub active : ConnectionPool s → ℕ
  active P = C.active P

  pub is_full : ConnectionPool s → Bool
  is_full P = C.is_full P

  pub start : Setting s → ConnectionPool s → s.World → Outcome s (Unit {0})
  unfolding wrap
  start env P w = let (r, Q, w') = C.start env P w in (wrap r, Q, w')

  pub stop : ConnectionPool s → s.World → Outcome s (Unit {0})
  unfolding active active_connections
  stop P w =
      let (joined, Q, w') = C.stop P w in
      if ltb 0 (active P) then (said active_connections, P, w) else (returned tt, Q, w')

  -- The connection is acquired before RETURN.
  unfoldable pub get_connection : Setting s → ConnectionPool s → s.World → Outcome s Handle
  get_connection env P w =
      let (r, Q, w') = C.get_connection_or_exception env P w in
      (elim r [ ok con ↦ returned (some con.id) | err e ↦ threw e ], Q, w')

  -- `Connection::close`; `none` is the use of a connection that was freed.
  unfoldable pub close :
      ConnectionPool s → Handle → s.World → Option (Handle × ConnectionPool s × s.World)
  close P none w = some (none, P, w)
  close P (some id) w = elim (C.return_connection P id w) [
    | none ↦ none
    | some (Q, w') ↦ some (none, Q, w')
  ]

  -- `ConnectionPool::returnConnection`
  pub return_connection :
      ConnectionPool s → Handle → s.World → Option (Handle × ConnectionPool s × s.World)
  unfolding close
  return_connection P h w = close P h w

  -- `Connection::~Connection`
  pub destroy : ConnectionPool s → Handle → s.World → Option (ConnectionPool s × s.World)
  unfolding close
  destroy P none w = some (P, w)
  destroy P (some id) w = elim (close P (some id) w) [
    | none ↦ none
    | some (h, Q, w') ↦ some (Q, w')
  ]

  pub reap_connections : ConnectionPool s → s.World → ℕ × ConnectionPool s × s.World
  reap_connections P w = C.reap_connections P w
