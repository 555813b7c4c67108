-- ===== src/Db/ConnectionPool/Returning.antt =====
-- `ConnectionPool_returnConnection`: the state in which a connection comes back.
use libzdb.Prelude.{
  ◌≡◌, refl, ap, ◌∙◌, sym, subst, true, List, ◌∷◌, ◌++◌, some, arith, inl, inr, Bool-cases,
  if◌then◌else◌,
}
use libzdb.Db.Delegate.{System}
use libzdb.Db.Connection.{Connection, rollback, clear, set_available, is_in_transaction}
use libzdb.Db.Connection.Clearing.{clear-IsClean}
use libzdb.Db.Connection.Creating.{IsFresh, set_available_lem, set_available-IsClean}
use libzdb.Db.Connection.Transactions.{rollback-zero, rollback-id, idle_level}
use libzdb.Db.ConnectionPool.{ConnectionPool, find_id, update_id, give_back, return_connection}
use libzdb.Db.ConnectionPool.Members.{
  Absent, Distinct, Distinct-middle, Distinct-replace, lent-Splits, find_id-append,
  update_id-append, lent, lent-append, lent_cons_available,
}

module _ {s : System} where
  rolled_back :
      (c : Connection s) (w : s.World)
      → let d = if is_in_transaction c then (rollback c w).1 else c in
        (d.id ≡ c.id) × (d.in_transaction ≡ 0)
  rolled_back c w = elim (Bool-cases (is_in_transaction c)) [
    | inl inside ↦ rw inside (rollback-id c w, rollback-zero c w)
    | inr outside ↦ rw outside (refl, idle_level c outside)
  ]

  made_available :
      (c : Connection s) (w w' : s.World)
      → c.in_transaction ≡ 0
      → IsFresh c.id (s.now w') (set_available (clear c w).0 true w')
  made_available c w w' zero =
      let (clean, same) = clear-IsClean c w in
      let (id, idle, stamp) = set_available_lem (clear c w).0 true w' in
      let (still_clean, level) = set_available-IsClean (clear c w).0 true w' clean in
      record {
        at = id ∙ same.id;
        idle = idle;
        no_transaction = level ∙ same.in_transaction ∙ zero;
        clean = still_clean;
        stamped = stamp;
      }

  -- Whether the connection was rolled back, and if so whether that succeeded or not, it comes back
  -- as good as new: at its address, available, clean, in no transaction, and with the time of its
  -- return.
  pub give_back-IsFresh :
      (c : Connection s) (w : s.World) → let (d, w') = give_back c w in IsFresh c.id (s.now w') d
  unfolding give_back
  give_back-IsFresh c w =
      let d = if is_in_transaction c then (rollback c w).1 else c in
      let w1 = if is_in_transaction c then (rollback c w).2 else w in
      let (same_id, zero) = rolled_back c w in
      subst
        (λ i. IsFresh i (s.now (clear d w1).1) (set_available (clear d w1).0 true (clear d w1).1))
        same_id (made_available d w1 (clear d w1).1 zero)

  return_at :
      (P : ConnectionPool s) (c : Connection s) (w : s.World) (before after : List (Connection s))
      → P.pool ≡ before ++ c ∷ after
      → Distinct P.pool
      → return_connection P c.id w
        ≡ some (record P { pool = before ++ (give_back c w).0 ∷ after }, (give_back c w).1)
  unfolding return_connection
  return_at P c w before after e d =
      let (absent, _) = Distinct-middle before after c (subst Distinct e d) in
      let found : find_id c.id P.pool ≡ some c =
        ap (find_id c.id) e ∙ find_id-append before after c absent in
      let updated : update_id c.id (give_back c w).0 P.pool ≡ before ++ (give_back c w).0 ∷ after =
        ap (update_id c.id (give_back c w).0) e
        ∙ update_id-append before after c (give_back c w).0 absent in
      ground arith

  -- A connection that is lent out of a pool whose connections are at different addresses can be
  -- returned. It is then in the pool at its address, available, clean, in no transaction and with the
  -- time of its return; the addresses are still distinct, and the lent connections are those that were
  -- lent, less this one.
  pub return_connection-IsFresh :
      (P : ConnectionPool s) (c : Connection s) (w : s.World) (l r : List (Connection s))
      → Distinct P.pool
      → lent P.pool ≡ l ++ c ∷ r
      → (Q : ConnectionPool s) × (w' : s.World) × (return_connection P c.id w ≡ some (Q, w'))
        × Distinct Q.pool
        × (lent Q.pool ≡ l ++ r)
        × ((d : Connection s) × (find_id c.id Q.pool ≡ some d) × IsFresh c.id (s.now w') d)
  return_connection-IsFresh P c w l r d e =
      let (before, after, split, left, right) = lent-Splits P.pool l c r e in
      let back = (give_back c w).0 in
      let fresh = give_back-IsFresh c w in
      let apart = subst Distinct split d in
      (
        record P { pool = before ++ back ∷ after },
        (give_back c w).1,
        return_at P c w before after split d,
        Distinct-replace before after c back fresh.at apart,
        lent-append before (back ∷ after)
            ∙ cc (lent_cons_available back after fresh.idle, left, right),
        (
          back,
          subst (λ i. find_id i (before ++ back ∷ after) ≡ some back) fresh.at
              (find_id-append before after back (
                subst (λ i. Absent i before) (sym fresh.at)
                  (Distinct-middle before after c apart).0)),
          fresh,
        ),
      )
