-- ===== src/Db/ConnectionPool/Reaping.antt =====
-- `ConnectionPool_reapConnections`: what a sweep closes and what it keeps.
use libzdb.Prelude.{
  ℕ, zero, suc, ◌+◌, ◌-◌, ◌≤◌, ◌<◌, ◌≡◌, refl, ap, ◌∙◌, sym, subst, Bool, true, false, ◌&&◌, ◌||◌,
  not, List, [], ◌∷◌, arith, inl, inr, Bool-cases, length, ltb, if◌then◌else◌, ◌⊎◌, min,
}
use libzdb.Db.Delegate.{System}
use libzdb.Db.Connection.{Connection, ping, free}
use libzdb.Db.ConnectionPool.{ConnectionPool, count_active, reap, reap_connections}
use libzdb.Db.ConnectionPool.Members.{lent, lent-tail, lent_cons_available, count_active-lent}

module _ {s : System} where
  -- Unused since the time out.
  abbrev pub is_late : ℕ → ℕ → Connection s → Bool
  is_late timeout now c = ltb (c.last_accessed_time + timeout) now

  -- The second list is the first less some connections. Each of these was available, and was late or
  -- did not answer a ping.
  pub data Reaps (timeout now : ℕ) : List (Connection s) → List (Connection s) → Type 0 where
    rest : {cs : List (Connection s)} → Reaps timeout now cs cs
    keeps :
        {c : Connection s} {cs ds : List (Connection s)}
        → Reaps timeout now cs ds
        → Reaps timeout now (c ∷ cs) (c ∷ ds)
    closes :
        {c : Connection s} {cs ds : List (Connection s)}
        → c.is_available ≡ true
        → (is_late timeout now c ≡ true) ⊎ ((w : s.World) × ((ping c w).0 ≡ false))
        → Reaps timeout now cs ds
        → Reaps timeout now (c ∷ cs) ds

  -- Of those connections, none that is available is late.
  abbrev pub NoneLate : ℕ → ℕ → List (Connection s) → Type 0
  NoneLate timeout now [] = Unit {0}
  NoneLate timeout now (c ∷ cs) =
      (c.is_available ≡ true → is_late timeout now c ≡ false) × NoneLate timeout now cs

  reap_closes :
      (budget timeout now : ℕ) (c : Connection s) (cs : List (Connection s)) (w : s.World)
      → c.is_available && (is_late timeout now c || not (ping c w).0) ≡ true
      → (w' : s.World) × (reap (suc budget) timeout now (c ∷ cs) w ≡ (
        suc (reap budget timeout now cs w').0,
        (reap budget timeout now cs w').1,
        (reap budget timeout now cs w').2,
      ))
  unfolding reap
  reap_closes budget timeout now c cs w h =
      (free c (if is_late timeout now c then w else (ping c w).1), ground arith)

  reap_keeps :
      (budget timeout now : ℕ) (c : Connection s) (cs : List (Connection s)) (w : s.World)
      → c.is_available && (is_late timeout now c || not (ping c w).0) ≡ false
      → (w' : s.World) × (reap (suc budget) timeout now (c ∷ cs) w ≡ (
        (reap (suc budget) timeout now cs w').0,
        c ∷ (reap (suc budget) timeout now cs w').1,
        (reap (suc budget) timeout now cs w').2,
      ))
  unfolding reap
  reap_keeps budget timeout now c cs w h =
      ((if c.is_available then (ping c w).1 else w), ground arith)

  -- What a sweep comes to: it closes no more than it may, it counts what it closes, and if it closed
  -- fewer, it has left no available connection that is late.
  abbrev pub Sweeps : ℕ → ℕ → ℕ → List (Connection s) → ℕ × List (Connection s) × s.World → Type 0
  Sweeps budget timeout now cs r =
      (r.0 ≤ budget)
      × (r.0 + length r.1 ≡ length cs)
      × Reaps timeout now cs r.1
      × (r.0 < budget → NoneLate timeout now r.1)

  why_closed :
      (timeout now : ℕ) (c : Connection s) (w : s.World)
      → c.is_available && (is_late timeout now c || not (ping c w).0) ≡ true
      → (is_late timeout now c ≡ true) ⊎ ((w' : s.World) × ((ping c w').0 ≡ false))
  why_closed timeout now c w h = elim (Bool-cases (is_late timeout now c)) [
    | inl late ↦ inl late
    | inr early ↦ inr (w, ground arith)
  ]

  pub reap-Sweeps :
      (budget timeout now : ℕ) (cs : List (Connection s)) (w : s.World)
      → Sweeps budget timeout now cs (reap budget timeout now cs w)
  reap-Sweeps zero timeout now cs w =
      unfold reap in (omega arith, omega arith, rest, λ lt. absurd (omega arith))
  reap-Sweeps (suc budget) timeout now [] w = unfold reap in (omega arith, refl, rest, λ lt. tt)
  reap-Sweeps (suc budget) timeout now (c ∷ cs) w =
      elim (Bool-cases (c.is_available && (is_late timeout now c || not (ping c w).0))) [
        | inl closed ↦
            let (w', e) = reap_closes budget timeout now c cs w closed in
            let (few, sum, thinned, none_late) = reap-Sweeps budget timeout now cs w' in
            subst (Sweeps (suc budget) timeout now (c ∷ cs)) (sym e) (
              omega arith,
              omega arith,
              closes (ground arith) (why_closed timeout now c w closed) thinned,
              λ lt. none_late (omega arith),
            )
        | inr kept ↦
            let (w', e) = reap_keeps budget timeout now c cs w kept in
            let (few, sum, thinned, none_late) = reap-Sweeps (suc budget) timeout now cs w' in
            subst (Sweeps (suc budget) timeout now (c ∷ cs)) (sym e)
              (few, omega arith, keeps thinned, λ lt. (λ idle. ground arith, none_late lt))
      ]

  Reaps-lent :
      {timeout now : ℕ} {cs ds : List (Connection s)} → Reaps timeout now cs ds → lent ds ≡ lent cs
  Reaps-lent rest = refl
  Reaps-lent (keeps r) = lent-tail _ _ _ (Reaps-lent r)
  Reaps-lent (closes idle why r) = Reaps-lent r ∙ sym (lent_cons_available _ _ idle)

  -- The spare connections of a pool: those it may close.
  abbrev pub spare : ConnectionPool s → ℕ
  spare P = length P.pool - count_active P.pool - P.initial_connections

  -- A sweep closes only connections that are available and have not been used since the time out or do
  -- not answer a ping, and no more than are available beyond the initial number; the result counts
  -- them. If it closed fewer than that, no available connection that is late is left.
  pub reap_connections-Sweeps :
      (P : ConnectionPool s) (w : s.World)
      → let (n, Q, w') = reap_connections P w in
        (n ≤ spare P)
        × (n + length Q.pool ≡ length P.pool)
        × Reaps P.connection_timeout (s.now w) P.pool Q.pool
        × (n < spare P → NoneLate P.connection_timeout (s.now w) Q.pool)
  unfolding reap_connections
  reap_connections-Sweeps P w = reap-Sweeps (spare P) P.connection_timeout (s.now w) P.pool w

  -- A sweep leaves the connections that are lent out as they are, and keeps available as many of the
  -- others as were, up to the initial number.
  pub reap_connections-lent :
      (P : ConnectionPool s) (w : s.World)
      → let Q = (reap_connections P w).1 in
        (lent Q.pool ≡ lent P.pool)
        × (min (length P.pool - count_active P.pool) P.initial_connections
            ≤ length Q.pool - count_active Q.pool)
  reap_connections-lent P w =
      let (few, sum, thinned, _) = reap_connections-Sweeps P w in
      let same = Reaps-lent thinned in
      let before = count_active-lent P.pool in
      let after = count_active-lent (reap_connections P w).1.pool in
      let counts = ap length same in (same, omega arith)
