-- ===== src/Db/ConnectionPool/Threads/Giving.antt =====
-- What the steps that return a connection, and those that add one, do to the connections of the pool and to
-- their owners.
use libzdb.Prelude.{
  ℕ, ◌≡◌, refl, ap, ◌∙◌, sym, subst, false, List, [], ◌∷◌, ◌++◌, some, arith, inl, inr, Bool-cases,
  Option-cases, ◌⊎◌,
}
use libzdb.Db.Delegate.{System}
use libzdb.Db.Connection.{Connection, set_available, rollback, is_in_transaction, Created}
use libzdb.Db.Connection.Clearing.{clear-IsClean}
use libzdb.Db.Connection.Creating.{set_available_lem}
use libzdb.Db.Connection.Transactions.{rollback-id, rollback-lent}
use libzdb.Db.ConnectionPool.{
  ConnectionPool, Setting, find_id, update_id, clean, noted, reap_connections,
}
use libzdb.Db.ConnectionPool.Members.{lent, lent-append}
use libzdb.Db.ConnectionPool.Threads.{
  Phase, outside, failing, pushing, holding, returning, push, settle, begin_return, sweep,
}
use libzdb.Db.ConnectionPool.Threads.Counting.{
  same, all_at, all_at-append, find_id-lent, update_id-count, lends,
}
use libzdb.Db.ConnectionPool.Threads.Effects.{IsLentAt, Balances}

module _ {s : System} where
  clean-keeps :
      (c : Connection s) (w : s.World)
      → ((clean c w).0.id ≡ c.id) × ((clean c w).0.is_available ≡ c.is_available)
  unfolding clean
  clean-keeps c w = elim (Bool-cases (is_in_transaction c)) [
    | inl inside ↦
        let same = (clear-IsClean (rollback c w).1 (rollback c w).2).1 in
        rw inside (same.id ∙ rollback-id c w, same.is_available ∙ rollback-lent c w)
    | inr idle ↦ let same = (clear-IsClean c w).1 in rw idle (same.id, same.is_available)
  ]

  -- What leaves the address and the lending of a connection leaves the counts.
  pub update_id-kept :
      (a id : ℕ) (cs : List (Connection s)) (c d : Connection s)
      → find_id id cs ≡ some c
      → d.id ≡ c.id
      → d.is_available ≡ c.is_available
      → (all_at a (update_id id d cs) ≡ all_at a cs)
        × (all_at a (lent (update_id id d cs)) ≡ all_at a (lent cs))
  update_id-kept a id cs c d e same_id same_lending =
      let (all, some_lent) = update_id-count a id cs c d e same_id in
      let kept : lends a d ≡ lends a c = rw (same_id, same_lending) in (all, omega arith)

  begin_return_step :
      (id : ℕ) (P : ConnectionPool s) (w : s.World) (c : Connection s)
      → find_id id P.pool ≡ some c
      → begin_return id P w
        ≡ (returning id, record P { pool = update_id id (clean c w).0 P.pool }, (clean c w).1)
  unfolding begin_return
  begin_return_step id P w c e = ground arith

  pub begin_return-Balances :
      (id : ℕ) (P : ConnectionPool s) (w : s.World)
      → IsLentAt id P
      → Balances (holding id) P (begin_return id P w)
  begin_return-Balances id P w (h, k) =
      let (c, e, same_id, busy) = find_id-lent id P.pool h k in
      let (kept_id, kept_lending) = clean-keeps c w in
      subst (Balances (holding id) P) (sym (begin_return_step id P w c e)) (
        refl,
        λ a.
            let (all, some_lent) =
              update_id-kept a id P.pool c (clean c w).0 e kept_id kept_lending in
            (omega arith, omega arith),
      )

  push_step :
      (c : Connection s) (P : ConnectionPool s) (w : s.World)
      → let con = set_available c false w in
        push c P w ≡ (holding con.id, record P { pool = P.pool ++ con ∷ [] }, w)
  unfolding push
  push_step c P w = refl

  lent_one :
      (a : ℕ) (c : Connection s) → c.is_available ≡ false → all_at a (lent (c ∷ [])) ≡ same a c.id
  unfolding lent
  lent_one a c h = rw h (omega arith)

  pub push-Balances :
      (c : Connection s) (P : ConnectionPool s) (w : s.World) → Balances (pushing c) P (push c P w)
  push-Balances c P w =
      let con = set_available c false w in
      let (kept_id, busy, _) = set_available_lem c false w in
      subst (Balances (pushing c) P) (sym (push_step c P w)) (
        refl,
        λ a.
            let all = all_at-append a P.pool (con ∷ []) in
            let some_lent =
              ap (all_at a) (lent-append P.pool (con ∷ []))
              ∙ all_at-append a (lent P.pool) (lent (con ∷ [])) in
            let one = lent_one a con busy in
            let here : same a con.id ≡ same a c.id = ap (same a) kept_id in
            (omega arith, omega arith),
      )

module _ {s : System} (env : Setting s) where
  -- Where there is a connection, the client has it; the pool holds what it held.
  pub settle_cases :
      (P : ConnectionPool s) (c : Created s) (w : s.World)
      → (p : Phase s) × (Q : ConnectionPool s) × (settle env P c w ≡ (p, Q, w))
        × (Q.pool ≡ P.pool)
        × (Q.max_connections ≡ P.max_connections)
        × (((p ≡ failing) ⊎ (p ≡ outside))
            ⊎ ((con : Connection s) × (c.connection ≡ some con) × (p ≡ pushing con)))
  unfolding settle
  settle_cases P c w = elim (Option-cases c.connection) [
    | inl e ↦ elim (Option-cases c.thrown) [
      | inl silent ↦
          (failing, noted env P c.message, ground arith, ground arith, ground arith, inl (inl refl))
      | inr (x, thrown) ↦
          (outside, noted env P c.message, ground arith, ground arith, ground arith, inl (inr refl))
    ]
    | inr (con, e) ↦ (
      pushing con,
      noted env P c.message,
      ground arith,
      ground arith,
      ground arith,
      inr (con, e, refl),
    )
  ]

module _ {s : System} where
  -- A sweep of a pool that is stopped does nothing.
  pub sweep_cases :
      (P : ConnectionPool s) (w : s.World)
      → (sweep P w ≡ (P, w)) ⊎ (sweep P w ≡ ((reap_connections P w).1, (reap_connections P w).2))
  unfolding sweep
  sweep_cases P w = elim (Bool-cases P.stopped) [
    | inl stopped ↦ inl (ground arith)
    | inr going ↦ inr (ground arith)
  ]
