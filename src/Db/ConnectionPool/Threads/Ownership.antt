-- ===== src/Db/ConnectionPool/Threads/Ownership.antt =====
-- No connection has two owners, however the calls interleave.
use libzdb.Prelude.{
  ℕ, zero, suc, ◌+◌, ◌≤◌, ◌≡◌, refl, ap, ◌∙◌, sym, subst, true, List, [], ◌∷◌, ◌++◌, some, arith,
  ◌==◌, inl, inr, Bool-cases, ltb,
}
use libzdb.Db.Delegate.{System}
use libzdb.Db.Connection.{Connection, Created, new}
use libzdb.Db.Connection.Creating.{new-IsFresh}
use libzdb.Db.ConnectionPool.{ConnectionPool, Setting, reap_connections}
use libzdb.Db.ConnectionPool.Members.{Absent, Distinct, lent}
use libzdb.Db.ConnectionPool.Filling.{AllIdle}
use libzdb.Db.ConnectionPool.Rounds.{IsFreshAddress}
use libzdb.Db.ConnectionPool.Reaping.{
  Reaps, rest, keeps, closes, reap_connections-Sweeps, reap_connections-lent,
}
use libzdb.Db.ConnectionPool.Threads.{
  Phase, outside, looking, pinging, removing, freeing, deciding, connecting, failing, reporting,
  pushing, holding, returning, dangling, State, Moved, settle, advance, moved, live, private_ids,
  Step, advances, uses, sweeps, elsewhere, Reach, here, later, begin_get, report, forget,
}
use libzdb.Db.ConnectionPool.Threads.Counting.{
  same, all_at, owns, total, total-middle, all_at-fresh, keeps-fresh, find_id-lent, lends,
}
use libzdb.Db.ConnectionPool.Threads.Counting
use libzdb.Db.ConnectionPool.Threads.Effects.{
  faults, IsLentAt, Balances, look-Balances, ping_at-Balances, remove_at-Balances, restore-Balances,
}
use libzdb.Db.ConnectionPool.Threads.Giving.{
  update_id-kept, begin_return-Balances, push-Balances, settle_cases, sweep_cases,
}

==_lem : (a b : ℕ) → a == b ≡ true → a ≡ b
==_lem a b h = ground arith

owns_self : (id : ℕ) → same id id ≡ 1
owns_self id = ground arith

module _ {s : System} where
  -- Each address stands with the lent connections of the pool as often as with the clients that own
  -- it; with all connections, in the pool or not, at most once; and no client has used a connection
  -- that was freed.
  pub record IsExclusive (S : State s) : Type 0 where
    pub owned : (a : ℕ) → all_at a (lent S.pool.pool) ≡ total (owns a) S.clients
    pub once : (a : ℕ) → all_at a S.pool.pool + total (Counting.keeps a) S.clients ≤ 1
    pub no_faults : total faults S.clients ≡ 0

  -- A client that owns an address owns that of a lent connection.
  lent_there :
      (S : State s) (before after : List (Phase s)) (p : Phase s) (id : ℕ)
      → IsExclusive S
      → S.clients ≡ before ++ p ∷ after
      → owns id p ≡ 1
      → IsLentAt id S.pool
  lent_there S before after p id v e one =
      let o = v.owned id in
      let k = v.once id in
      let t = ap (total (owns id)) e ∙ total-middle (owns id) before p after in
      (omega arith, omega arith)

  -- A step of a client that balances keeps the invariant.
  balanced :
      (S : State s) (before after : List (Phase s)) (p : Phase s) (m : Moved s)
      → IsExclusive S
      → S.clients ≡ before ++ p ∷ after
      → Balances p S.pool m
      → IsExclusive (record { pool = m.1; world = m.2; clients = before ++ m.0 ∷ after })
  balanced S before after p m v e (sound, counts) = record {
    owned = λ a.
        let (lending, _) = counts a in
        let o = v.owned a in
        let old = ap (total (owns a)) e ∙ total-middle (owns a) before p after in
        let new = total-middle (owns a) before m.0 after in omega arith;
    once = λ a.
        let (_, all) = counts a in
        let o = v.once a in
        let old =
          ap (total (Counting.keeps a)) e ∙ total-middle (Counting.keeps a) before p after in
        let new = total-middle (Counting.keeps a) before m.0 after in omega arith;
    no_faults =
        let o = v.no_faults in
        let old = ap (total faults) e ∙ total-middle faults before p after in
        let new = total-middle faults before m.0 after in omega arith;
  }

  -- Where all connections are idle, at different addresses, and all clients are outside, it holds.
  abbrev pub AllOutside : List (Phase s) → Type 0
  AllOutside [] = Unit {0}
  AllOutside (p ∷ ps) = (p ≡ outside) × AllOutside ps

  pub AllOutside-total :
      (f : Phase s → ℕ) (ps : List (Phase s)) → f outside ≡ 0 → AllOutside ps → total f ps ≡ 0
  AllOutside-total f [] e h = refl
  AllOutside-total f (p ∷ ps) e h =
      let o : f p ≡ 0 = ap f h.0 ∙ e in omega (arith, AllOutside-total f ps e h.1)

  Absent-all_at : (a : ℕ) (cs : List (Connection s)) → Absent a cs → all_at a cs ≡ 0
  Absent-all_at a [] h = refl
  Absent-all_at a (c ∷ cs) h = let ih = Absent-all_at a cs h.1 in let apart = h.0 in ground arith

  Distinct-all_at : (a : ℕ) (cs : List (Connection s)) → Distinct cs → all_at a cs ≤ 1
  Distinct-all_at a [] d = omega arith
  Distinct-all_at a (c ∷ cs) d = elim (Bool-cases (c.id == a)) [
    | inl hit ↦
        let rest_zero =
          subst (λ x. all_at x cs ≡ 0) (==_lem c.id a hit) (Absent-all_at c.id cs d.0) in
        let one : same a c.id ≡ 1 = rw hit in omega arith
    | inr miss ↦
        let ih = Distinct-all_at a cs d.1 in let zero_now : same a c.id ≡ 0 = rw miss in omega arith
  ]

  pub quiet-IsExclusive : (S : State s) → AllIdle S.pool.pool → AllOutside S.clients → IsExclusive S
  quiet-IsExclusive S (d, none_lent) q = record {
    owned = λ a. ap (all_at a) none_lent ∙ sym (AllOutside-total (owns a) S.clients refl q);
    once = λ a.
        let one = Distinct-all_at a S.pool.pool d in
        let none_kept = AllOutside-total (Counting.keeps a) S.clients refl q in omega arith;
    no_faults = AllOutside-total faults S.clients refl q;
  }

  Reaps-all_at :
      {timeout now : ℕ} {cs ds : List (Connection s)} (a : ℕ)
      → Reaps timeout now cs ds
      → all_at a ds ≤ all_at a cs
  Reaps-all_at a rest = omega arith
  Reaps-all_at a (keeps r) = omega (arith, Reaps-all_at a r)
  Reaps-all_at a (closes idle why r) = omega (arith, Reaps-all_at a r)

module _ {s : System} (env : Setting s) (fresh : IsFreshAddress env) where
  -- A new connection is at an address that nobody has.
  once_more :
      (S : State s) (before after : List (Phase s)) (con : Connection s) (a : ℕ)
      → IsExclusive S
      → S.clients ≡ before ++ connecting ∷ after
      → con.id ≡ env.malloc (live S)
      → all_at a S.pool.pool + total (Counting.keeps a) (before ++ pushing con ∷ after) ≤ 1
  once_more S before after con a v e at =
      let o = v.once a in
      let old =
        ap (total (Counting.keeps a)) e ∙ total-middle (Counting.keeps a) before connecting after in
      let new = total-middle (Counting.keeps a) before (pushing con) after in
      elim (Bool-cases (con.id == a)) [
        | inl hit ↦
            let found : a ≡ env.malloc (live S) = sym (==_lem con.id a hit) ∙ at in
            let none_in_pool =
              subst (λ x. all_at x S.pool.pool ≡ 0) (sym found)
                (all_at-fresh _ S.pool.pool (private_ids S.clients) (fresh (live S))) in
            let none_kept =
              subst (λ x. total (Counting.keeps x) S.clients ≡ 0) (sym found)
                (keeps-fresh _ S.pool.pool S.clients (fresh (live S))) in
            let one : same a con.id ≡ 1 = rw hit in omega arith
        | inr miss ↦ let zero_now : same a con.id ≡ 0 = rw miss in omega arith
      ]

  settled :
      (S : State s) (before after : List (Phase s)) (c : Created s) (w : s.World)
      → IsExclusive S
      → S.clients ≡ before ++ connecting ∷ after
      → ((con : Connection s) → c.connection ≡ some con → con.id ≡ env.malloc (live S))
      → IsExclusive (moved env before after (settle env S.pool c w))
  settled S before after c w v e at_malloc =
      let (p, Q, step, same_pool, _, way) = settle_cases env S.pool c w in
      subst (λ m. IsExclusive (moved env before after m)) (sym step)
        (elim way [
          | inl (inl gone) ↦ rw gone (
              balanced S before after connecting (failing, Q, w) v e
                (refl, λ a. rw same_pool (refl, omega arith)))
          | inl (inr gone) ↦ rw gone (
              balanced S before after connecting (outside, Q, w) v e
                (refl, λ a. rw same_pool (refl, omega arith)))
          | inr (con, made, has) ↦ rw has (record {
            owned = λ a.
                let o = v.owned a in
                let old = ap (total (owns a)) e ∙ total-middle (owns a) before connecting after in
                let new = total-middle (owns a) before (pushing con) after in
                rw same_pool (omega arith);
            once = λ a. rw same_pool (once_more S before after con a v e (at_malloc con made));
            no_faults =
                let o = v.no_faults in
                let old = ap (total faults) e ∙ total-middle faults before connecting after in
                let new = total-middle faults before (pushing con) after in omega arith;
          })
        ])

  step_of :
      (S : State s) (before after : List (Phase s)) (p : Phase s)
      → IsExclusive S
      → S.clients ≡ before ++ p ∷ after
      → IsExclusive (moved env before after (advance env p (live S) S.pool S.world))
  unfolding advance begin_get report forget
  step_of S before after outside v e =
      balanced S before after outside _ v e (refl, λ a. (refl, omega arith))
  step_of S before after (looking size zero) v e =
      balanced S before after (looking size zero) _ v e (refl, λ a. (refl, omega arith))
  step_of S before after (looking size (suc k)) v e =
      balanced S before after (looking size (suc k)) _ v e
        (look-Balances size (suc k) S.pool S.world)
  step_of S before after (pinging size k id) v e =
      balanced S before after (pinging size k id) _ v e (
        ping_at-Balances size k id S.pool S.world
          (lent_there S before after (pinging size k id) id v e (owns_self id)))
  step_of S before after (removing size k id) v e =
      balanced S before after (removing size k id) _ v e (
        remove_at-Balances size k id S.pool S.world
          (lent_there S before after (removing size k id) id v e (owns_self id)))
  step_of S before after (freeing size k c) v e =
      balanced S before after (freeing size k c) _ v e (refl, λ a. (refl, omega arith))
  step_of S before after (deciding size) v e = elim (Bool-cases (ltb size S.pool.max_connections)) [
    | inl room ↦
        rw room (balanced S before after (deciding size) _ v e (refl, λ a. (refl, omega arith)))
    | inr full ↦
        rw full (balanced S before after (deciding size) _ v e (refl, λ a. (refl, omega arith)))
  ]
  step_of S before after connecting v e =
      let (c, w') = new env.cops (env.malloc (live S)) S.pool.url S.world in
      settled S before after c w' v e
        (λ con made. (new-IsFresh env.cops (env.malloc (live S)) S.pool.url S.world con made).at)
  step_of S before after failing v e =
      balanced S before after failing _ v e (refl, λ a. (refl, omega arith))
  step_of S before after (reporting message) v e =
      balanced S before after (reporting message) _ v e (refl, λ a. (refl, omega arith))
  step_of S before after (pushing c) v e =
      balanced S before after (pushing c) _ v e (push-Balances c S.pool S.world)
  step_of S before after (holding id) v e = balanced S before after (holding id) _ v e (
      begin_return-Balances id S.pool S.world
        (lent_there S before after (holding id) id v e (owns_self id)))
  step_of S before after (returning id) v e = balanced S before after (returning id) _ v e (
      restore-Balances id S.pool S.world
        (lent_there S before after (returning id) id v e (owns_self id)))
  step_of S before after dangling v e =
      let o = v.no_faults in
      let t = ap (total faults) e ∙ total-middle faults before dangling after in
      absurd (omega arith)

  -- A pool with the same lent connections, and no others than before, will do.
  with_pool :
      (S : State s) (Q : ConnectionPool s) (w : s.World)
      → IsExclusive S
      → lent Q.pool ≡ lent S.pool.pool
      → ((a : ℕ) → all_at a Q.pool ≤ all_at a S.pool.pool)
      → IsExclusive (record S { pool = Q; world = w })
  with_pool S Q w v same_lent fewer = record {
    owned = λ a. ap (all_at a) same_lent ∙ v.owned a;
    once = λ a. let o = v.once a in omega (arith, fewer a);
    no_faults = v.no_faults;
  }

  pub Step-IsExclusive : {S T : State s} → Step env S T → IsExclusive S → IsExclusive T
  Step-IsExclusive {S} (advances before after p e f) v =
      subst IsExclusive (sym f) (step_of S before after p v e)
  Step-IsExclusive {S} (uses before after id c d w e found same_id same_lending f) v =
      subst IsExclusive (sym f) record {
        owned = λ a.
            let o = v.owned a in
            let (_, some_lent) = update_id-kept a id S.pool.pool c d found same_id same_lending in
            omega arith;
        once = λ a.
            let o = v.once a in
            let (all, _) = update_id-kept a id S.pool.pool c d found same_id same_lending in
            omega arith;
        no_faults = v.no_faults;
      }
  Step-IsExclusive {S} (sweeps f) v = subst IsExclusive (sym f) (elim (sweep_cases S.pool S.world) [
    | inl stopped ↦ rw stopped (with_pool S S.pool S.world v refl (λ a. omega arith))
    | inr going ↦ rw going (
        with_pool S (reap_connections S.pool S.world).1 (reap_connections S.pool S.world).2 v
          (reap_connections-lent S.pool S.world).0
          (λ a. Reaps-all_at a (reap_connections-Sweeps S.pool S.world).2))
  ])
  Step-IsExclusive (elsewhere w f) v =
      subst IsExclusive (sym f) (record { owned = v.owned; once = v.once; no_faults = v.no_faults })

  -- Where `malloc` gives addresses that are not in use, no interleaving of the steps of the clients and
  -- the sweeps of the reaper breaks this: each address stands with the lent connections of the pool
  -- as often as with the clients that own it, and with all connections at most once, so that no
  -- connection has two owners and none is lent without one; and no client uses a connection that
  -- was freed.
  pub Reach-IsExclusive : {S T : State s} → IsExclusive S → Reach env S T → IsExclusive T
  Reach-IsExclusive v here = v
  Reach-IsExclusive v (later r step) = Step-IsExclusive step (Reach-IsExclusive v r)
