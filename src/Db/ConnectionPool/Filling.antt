-- ===== src/Db/ConnectionPool/Filling.antt =====
-- `_fillPool`: how many connections it makes, and when it gives up.
use libzdb.Prelude.{
  ℕ, zero, suc, ◌+◌, ◌≤◌, ◌<◌, ◌≡◌, refl, ap, ◌∙◌, sym, subst, Bool, true, false, List, [], ◌∷◌,
  ◌++◌, some, none, arith, inl, inr, ◌⊎◌, Result, ok, err, Exception, Option-cases, length, ltb,
  length-append,
}
use libzdb.Db.Delegate.{System}
use libzdb.Db.Connection.{Connection}
use libzdb.Db.Connection.Creating.{new-IsFresh}
use libzdb.Db.ConnectionPool.{ConnectionPool, Setting, Outcome, ids, connect, noted, fill}
use libzdb.Db.ConnectionPool.Members.{
  Absent, Distinct, lent, lent-append, lent_nil, lent_cons_available, Distinct-append,
}
use libzdb.Db.ConnectionPool.Rounds.{IsFreshAddress, Absent-NotAmong}

-- The three ways that filling a pool goes.
pub filling_cases :
    (r : Result Bool) → (r ≡ ok true) ⊎ ((r ≡ ok false) ⊎ ((e : Exception) × (r ≡ err e)))
filling_cases (ok true) = inl refl
filling_cases (ok false) = inr (inl refl)
filling_cases (err e) = inr (inr (e, refl))

module _ {s : System} where
  -- Connections at different addresses, none of them lent.
  abbrev pub AllIdle : List (Connection s) → Type 0
  AllIdle cs = Distinct cs × (lent cs ≡ [])

  pub AllIdle-append :
      (cs : List (Connection s)) (c : Connection s)
      → AllIdle cs
      → Distinct (cs ++ c ∷ [])
      → c.is_available ≡ true
      → AllIdle (cs ++ c ∷ [])
  AllIdle-append cs c (d, none_lent) e idle =
      (e, lent-append cs (c ∷ []) ∙ cc (none_lent, lent_cons_available c [] idle, lent_nil))

  -- What filling a pool leaves: a failure leaves it empty, and an exception what was made before.
  abbrev pub Fills : ℕ → Outcome s (Result Bool) → Type 0
  Fills most (ok true, Q, w) =
      AllIdle Q.pool × (length Q.pool ≤ most) × (0 < most → 0 < length Q.pool)
  Fills most (ok false, Q, w) = Q.pool ≡ []
  Fills most (err e, Q, w) = AllIdle Q.pool × (length Q.pool ≤ most)

  empty_list : (cs : List (Connection s)) → length cs ≡ 0 → cs ≡ []
  empty_list [] e = refl
  empty_list (c ∷ cs) e = absurd (omega arith)

  Fills-stopped :
      (cs : List (Connection s)) (most i : ℕ) (o : Outcome s (Result Bool))
      → AllIdle cs
      → length cs ≡ i
      → i ≤ most
      → (o.0 ≡ ok (ltb 0 i)) ⊎ ((e : Exception) × (o.0 ≡ err e))
      → o.1.pool ≡ cs
      → Fills most o
  Fills-stopped cs most i (ok true, Q, w) idle e h (inl found) same =
      let n = ap length same in (subst AllIdle (sym same) idle, omega arith, λ lt. ground arith)
  Fills-stopped cs most i (ok true, Q, w) idle e h (inr (x, found)) same = absurd (ground arith)
  Fills-stopped cs most i (ok false, Q, w) idle e h (inl found) same =
      same ∙ empty_list cs (ground arith)
  Fills-stopped cs most i (ok false, Q, w) idle e h (inr (x, found)) same = absurd (ground arith)
  Fills-stopped cs most i (err x, Q, w) idle e h found same =
      let n = ap length same in (subst AllIdle (sym same) idle, omega arith)

  pub Fills-filled :
      (most : ℕ) (o : Outcome s (Result Bool))
      → Fills most o
      → o.0 ≡ ok true
      → AllIdle o.1.pool × (length o.1.pool ≤ most) × (0 < most → 0 < length o.1.pool)
  Fills-filled most (ok true, Q, w) fills e = fills
  Fills-filled most (ok false, Q, w) fills e = absurd (ground arith)
  Fills-filled most (err x, Q, w) fills e = absurd (ground arith)

  pub Fills-empty :
      (most : ℕ) (o : Outcome s (Result Bool)) → Fills most o → o.0 ≡ ok false → o.1.pool ≡ []
  Fills-empty most (ok true, Q, w) fills e = absurd (ground arith)
  Fills-empty most (ok false, Q, w) fills e = fills
  Fills-empty most (err x, Q, w) fills e = absurd (ground arith)

  pub Fills-thrown :
      (most : ℕ) (o : Outcome s (Result Bool)) (x : Exception)
      → Fills most o
      → o.0 ≡ err x
      → AllIdle o.1.pool × (length o.1.pool ≤ most)
  Fills-thrown most (ok true, Q, w) x fills e = absurd (ground arith)
  Fills-thrown most (ok false, Q, w) x fills e = absurd (ground arith)
  Fills-thrown most (err y, Q, w) x fills e = fills

module _ {s : System} (env : Setting s) where
  fill_step :
      (rounds i : ℕ) (P : ConnectionPool s) (w : s.World) (c : Connection s)
      → (connect env P w).0.connection ≡ some c
      → (Q : ConnectionPool s) × (Q.pool ≡ P.pool ++ c ∷ [])
        × (Q.stopped ≡ P.stopped)
        × (Q.locked ≡ P.locked)
        × (Q.filled ≡ P.filled)
        × (fill env (suc rounds) i P w ≡ fill env rounds (suc i) Q (connect env P w).1)
  unfolding fill
  fill_step rounds i P w c made =
      let Q = noted env P (connect env P w).0.message in
      (
        record Q { pool = Q.pool ++ c ∷ [] },
        ground arith,
        ground arith,
        ground arith,
        ground arith,
        ground arith,
      )

  fill_stop :
      (rounds i : ℕ) (P : ConnectionPool s) (w : s.World)
      → (connect env P w).0.connection ≡ none
      → (((fill env (suc rounds) i P w).0 ≡ ok (ltb 0 i))
          ⊎ ((e : Exception) × ((fill env (suc rounds) i P w).0 ≡ err e)))
        × ((fill env (suc rounds) i P w).1.pool ≡ P.pool)
        × ((fill env (suc rounds) i P w).1.stopped ≡ P.stopped)
        × ((fill env (suc rounds) i P w).1.locked ≡ P.locked)
        × ((fill env (suc rounds) i P w).1.filled ≡ P.filled)
  unfolding fill
  fill_stop rounds i P w none_made = elim (Option-cases (connect env P w).0.thrown) [
    | inl silent ↦ (inl (ground arith), ground arith, ground arith, ground arith, ground arith)
    | inr (e, thrown) ↦
        (inr (e, ground arith), ground arith, ground arith, ground arith, ground arith)
  ]

  pub fill-Fills :
      IsFreshAddress env
      → (rounds i : ℕ) (P : ConnectionPool s) (w : s.World) → AllIdle P.pool
      → length P.pool ≡ i
      → Fills (rounds + i) (fill env rounds i P w)
  fill-Fills fresh zero i P w idle e = unfold fill in (idle, omega arith, λ lt. omega arith)
  fill-Fills fresh (suc rounds) i P w idle e = elim (Option-cases (connect env P w).0.connection) [
    | inl none_made ↦
        let (found, same, _, _, _) = fill_stop rounds i P w none_made in
        Fills-stopped P.pool (suc rounds + i) i (fill env (suc rounds) i P w) idle e (omega arith)
          found same
    | inr (c, made) ↦
        let fresh_c = new-IsFresh env.cops (env.malloc (ids P.pool)) P.url w c made in
        let (Q, longer, _, _, _, e') = fill_step rounds i P w c made in
        let apart = Distinct-append P.pool c idle.0 (
          subst (λ a. Absent a P.pool) (sym fresh_c.at)
            (Absent-NotAmong _ P.pool (fresh (ids P.pool)))) in
        let idle' = AllIdle-append P.pool c idle apart fresh_c.idle in
        let n = ap length longer ∙ length-append P.pool (c ∷ []) in
        let ih =
          fill-Fills fresh rounds (suc i) Q (connect env P w).1 (subst AllIdle (sym longer) idle')
            (omega arith) in
        subst (Fills (suc rounds + i)) (sym e') (
          subst (λ most. Fills most (fill env rounds (suc i) Q (connect env P w).1)) (omega arith)
            ih)
  ]

  pub fill-keeps :
      (rounds i : ℕ) (P : ConnectionPool s) (w : s.World)
      → ((fill env rounds i P w).1.stopped ≡ P.stopped)
        × ((fill env rounds i P w).1.locked ≡ P.locked)
        × ((fill env rounds i P w).1.filled ≡ P.filled)
  fill-keeps zero i P w = unfold fill in (refl, refl, refl)
  fill-keeps (suc rounds) i P w = elim (Option-cases (connect env P w).0.connection) [
    | inl none_made ↦
        let (_, _, stopped, locked, filled) = fill_stop rounds i P w none_made in
        (stopped, locked, filled)
    | inr (c, made) ↦
        let (Q, _, stopped, locked, filled, e) = fill_step rounds i P w c made in
        let ih = fill-keeps rounds (suc i) Q (connect env P w).1 in
        (
          ap (λ o. o.1.stopped) e ∙ ih.0 ∙ stopped,
          ap (λ o. o.1.locked) e ∙ ih.1 ∙ locked,
          ap (λ o. o.1.filled) e ∙ ih.2 ∙ filled,
        )
  ]
