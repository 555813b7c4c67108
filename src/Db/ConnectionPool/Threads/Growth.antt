-- ===== src/Db/ConnectionPool/Threads/Growth.antt =====
-- How far concurrent calls can overfill the pool.
use libzdb.Prelude.{
  ℕ, zero, suc, ◌+◌, ◌≤◌, ◌≡◌, refl, ap, ◌∙◌, sym, subst, true, false, List, [], ◌∷◌, ◌++◌, arith,
  if◌then◌else◌, inl, inr, Bool-cases, Option-cases, length, length-append, ltb, ◌⊎◌,
}
use libzdb.Db.Delegate.{System}
use libzdb.Db.Connection.{Connection, Created, new, set_available}
use libzdb.Db.ConnectionPool.{
  ConnectionPool, Setting, find_id, update_id, take_available, reap_connections, clean,
}
use libzdb.Db.ConnectionPool.Members.{Takes, take_available-Takes}
use libzdb.Db.ConnectionPool.Reaping.{reap_connections-Sweeps}
use libzdb.Db.ConnectionPool.Threads.{
  Phase, outside, looking, pinging, removing, freeing, deciding, connecting, failing, reporting,
  pushing, holding, returning, dangling, State, Moved, ping_at, remove_at, look, restore, settle,
  push, begin_return, begin_get, report, forget, advance, live, Step, advances, uses, sweeps,
  elsewhere, Reach, here, later,
}
use libzdb.Db.ConnectionPool.Threads.Giving.{settle_cases, sweep_cases}
use libzdb.Db.ConnectionPool.Threads.Ownership.{AllOutside, AllOutside-total}
use libzdb.Db.ConnectionPool.Threads.Counting.{total, total-middle, remove_id-count}

module _ {s : System} where
  -- One for a client that may yet add a connection: the size that it saw was below the maximum.
  abbrev pub passes : ℕ → Phase s → ℕ
  passes most (looking size k) = if ltb size most then 1 else 0
  passes most (pinging size k id) = if ltb size most then 1 else 0
  passes most (removing size k id) = if ltb size most then 1 else 0
  passes most (freeing size k c) = if ltb size most then 1 else 0
  passes most (deciding size) = if ltb size most then 1 else 0
  passes most connecting = 1
  passes most (pushing c) = 1
  passes most p = 0

  passes-le : (most : ℕ) (p : Phase s) → passes most p ≤ 1
  passes-le most outside = omega arith
  passes-le most (looking size k) = ground arith
  passes-le most (pinging size k id) = ground arith
  passes-le most (removing size k id) = ground arith
  passes-le most (freeing size k c) = ground arith
  passes-le most (deciding size) = ground arith
  passes-le most connecting = omega arith
  passes-le most failing = omega arith
  passes-le most (reporting t) = omega arith
  passes-le most (pushing c) = omega arith
  passes-le most (holding id) = omega arith
  passes-le most (returning id) = omega arith
  passes-le most dangling = omega arith

  total-passes-le : (most : ℕ) (ps : List (Phase s)) → total (passes most) ps ≤ length ps
  total-passes-le most [] = omega arith
  total-passes-le most (p ∷ ps) = omega (arith, passes-le most p, total-passes-le most ps)

  -- The pool, with those that may yet add to it, exceeds the maximum by no more than the clients.
  pub record IsBounded (S : State s) : Type 0 where
    pub bound :
        length S.pool.pool + total (passes S.pool.max_connections) S.clients
        ≤ S.pool.max_connections + length S.clients

  -- A step leaves the maximum, and either does not add to the pool and to those that may add, or has
  -- seen room.
  abbrev Spends : Phase s → ConnectionPool s → Moved s → Type 0
  Spends p P (p', P', w') =
      (P'.max_connections ≡ P.max_connections)
      × ((length P'.pool + passes P.max_connections p' ≤ length P.pool + passes P.max_connections p)
          ⊎ (length P'.pool + passes P.max_connections p' ≤ P.max_connections))

  length-update_id :
      (id : ℕ) (d : Connection s) (cs : List (Connection s))
      → length (update_id id d cs) ≡ length cs
  unfolding update_id
  length-update_id id d [] = refl
  length-update_id id d (c ∷ cs) = ground (arith, length-update_id id d cs)

  look-Spends :
      (size k : ℕ) (P : ConnectionPool s) (w : s.World)
      → Spends (looking size k) P (look size k P w)
  unfolding look
  look-Spends size k P w = elim (Option-cases (take_available P.pool w)) [
    | inl e ↦ rw (e, look) (refl, inl (omega arith))
    | inr ((con, cs), e) ↦
        let (before, c, after, split, _, _, _, rest) =
          subst (Takes P.pool w) e (take_available-Takes P.pool w) in
        let n = ap length split ∙ length-append before (c ∷ after) in
        let m = ap length rest ∙ length-append before (con ∷ after) in
        let same_length : length cs ≡ length P.pool = omega arith in
        rw (e, look) (refl, inl (omega arith))
  ]

  ping_at-Spends :
      (size k id : ℕ) (P : ConnectionPool s) (w : s.World)
      → Spends (pinging size k id) P (ping_at size k id P w)
  unfolding ping_at
  ping_at-Spends size k id P w = ground arith

  remove_at-Spends :
      (size k id : ℕ) (P : ConnectionPool s) (w : s.World)
      → Spends (removing size k id) P (remove_at k id P w)
  unfolding remove_at
  remove_at-Spends size k id P w = elim (Option-cases (find_id id P.pool)) [
    | inl e ↦ ground arith
    | inr (c, e) ↦ let (_, _, n) = remove_id-count id id P.pool c e in ground arith
  ]

  restore-Spends :
      (id : ℕ) (P : ConnectionPool s) (w : s.World) → Spends (returning id) P (restore id P w)
  unfolding restore
  restore-Spends id P w = elim (Option-cases (find_id id P.pool)) [
    | inl e ↦ ground arith
    | inr (c, e) ↦
        let n = λ (d : Connection s). length-update_id id d P.pool in
        rw (e, restore) (refl, inl (omega (arith, n (set_available c true w))))
  ]

  begin_return-Spends :
      (id : ℕ) (P : ConnectionPool s) (w : s.World) → Spends (holding id) P (begin_return id P w)
  unfolding begin_return
  begin_return-Spends id P w = elim (Option-cases (find_id id P.pool)) [
    | inl e ↦ ground arith
    | inr (c, e) ↦
        rw (e, begin_return) (refl, inl (omega (arith, length-update_id id (clean c w).0 P.pool)))
  ]

  push-Spends :
      (c : Connection s) (P : ConnectionPool s) (w : s.World) → Spends (pushing c) P (push c P w)
  unfolding push
  push-Spends c P w =
      (refl, inl (omega (arith, length-append P.pool (set_available c false w ∷ []))))

  begin_get-Spends : (P : ConnectionPool s) (w : s.World) → Spends outside P (begin_get P w)
  unfolding begin_get
  begin_get-Spends P w = elim (Bool-cases (ltb (length P.pool) P.max_connections)) [
    | inl room ↦ (refl, inr (ground arith))
    | inr full ↦ (refl, inl (ground arith))
  ]

  spent :
      (S : State s) (before after : List (Phase s)) (p : Phase s) (m : Moved s)
      → IsBounded S
      → S.clients ≡ before ++ p ∷ after
      → Spends p S.pool m
      → IsBounded (record { pool = m.1; world = m.2; clients = before ++ m.0 ∷ after })
  spent S before after p m v e (same_most, way) =
      let most = S.pool.max_connections in
      let b = v.bound in
      let old = ap (total (passes most)) e ∙ total-middle (passes most) before p after in
      let new = total-middle (passes most) before m.0 after in
      let n = ap length e ∙ length-append before (p ∷ after) in
      let n' = length-append before (m.0 ∷ after) in
      let some = total-passes-le most before in
      let others = total-passes-le most after in
      record { bound = rw same_most (elim way [ inl less ↦ omega arith | inr room ↦ omega arith ]) }

  reap-max :
      (P : ConnectionPool s) (w : s.World)
      → (reap_connections P w).1.max_connections ≡ P.max_connections
  unfolding reap_connections
  reap-max P w = refl

module _ {s : System} (env : Setting s) where
  settle-Spends :
      (P : ConnectionPool s) (c : Created s) (w : s.World) → Spends connecting P (settle env P c w)
  settle-Spends P c w =
      let (p, Q, step, same_pool, same_most, way) = settle_cases env P c w in
      subst (Spends connecting P) (sym step) (elim way [
        | inl (inl gone) ↦ rw (gone, same_pool) (same_most, inl (omega arith))
        | inl (inr gone) ↦ rw (gone, same_pool) (same_most, inl (omega arith))
        | inr (con, made, has) ↦ rw (has, same_pool) (same_most, inl (omega arith))
      ])

  advance-Spends :
      (p : Phase s) (used : List ℕ) (P : ConnectionPool s) (w : s.World)
      → Spends p P (advance env p used P w)
  unfolding advance report forget
  advance-Spends outside used P w = begin_get-Spends P w
  advance-Spends (looking size zero) used P w = (refl, inl (omega arith))
  advance-Spends (looking size (suc k)) used P w = look-Spends size (suc k) P w
  advance-Spends (pinging size k id) used P w = ping_at-Spends size k id P w
  advance-Spends (removing size k id) used P w = remove_at-Spends size k id P w
  advance-Spends (freeing size k c) used P w = (refl, inl (omega arith))
  advance-Spends (deciding size) used P w = elim (Bool-cases (ltb size P.max_connections)) [
    | inl room ↦ rw room (refl, inl (omega arith))
    | inr full ↦ rw full (refl, inl (omega arith))
  ]
  advance-Spends connecting used P w =
      let (c, w') = new env.cops (env.malloc used) P.url w in settle-Spends P c w'
  advance-Spends failing used P w = (refl, inl (omega arith))
  advance-Spends (reporting t) used P w = (refl, inl (omega arith))
  advance-Spends (pushing c) used P w = push-Spends c P w
  advance-Spends (holding id) used P w = begin_return-Spends id P w
  advance-Spends (returning id) used P w = restore-Spends id P w
  advance-Spends dangling used P w = (refl, inl (omega arith))

  pub Step-IsBounded : {S T : State s} → Step env S T → IsBounded S → IsBounded T
  Step-IsBounded {S} (advances before after p e f) v =
      subst IsBounded (sym f)
        (spent S before after p _ v e (advance-Spends p (live S) S.pool S.world))
  Step-IsBounded {S} (uses before after id c d w e found same_id same_lending f) v =
      let b = v.bound in
      subst IsBounded (sym f) (record { bound = omega (arith, length-update_id id d S.pool.pool) })
  Step-IsBounded {S} (sweeps f) v =
      let b = v.bound in
      let n = (reap_connections-Sweeps S.pool S.world).1 in
      subst IsBounded (sym f) (elim (sweep_cases S.pool S.world) [
        | inl stopped ↦ rw stopped (record { bound = v.bound })
        | inr going ↦ rw going (record { bound = rw (reap-max S.pool S.world) (omega arith) })
      ])
  Step-IsBounded (elsewhere w f) v = subst IsBounded (sym f) (record { bound = v.bound })

  Reach-IsBounded : {S T : State s} → IsBounded S → Reach env S T → IsBounded T
  Reach-IsBounded v here = v
  Reach-IsBounded v (later r step) = Step-IsBounded step (Reach-IsBounded v r)

  -- If at first the pool holds no more connections than the maximum and no client is in a call, then,
  -- however the steps of the clients and of the reaper interleave, the pool never holds more than the
  -- maximum and the number of clients together.
  pub Reach-size :
      (S T : State s)
      → length S.pool.pool ≤ S.pool.max_connections
      → AllOutside S.clients
      → Reach env S T
      → length T.pool.pool ≤ T.pool.max_connections + length T.clients
  Reach-size S T few quiet r =
      let none_passes = AllOutside-total (passes S.pool.max_connections) S.clients refl quiet in
      let b = (Reach-IsBounded (record { bound = omega arith }) r).bound in omega arith
