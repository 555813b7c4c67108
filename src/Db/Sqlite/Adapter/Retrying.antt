-- ===== src/Db/Sqlite/Adapter/Retrying.antt =====
-- What the retries of SQLiteAdapter.c come to.
use libzdb.Prelude.{
  ℕ, zero, suc, ◌+◌, ◌≤◌, ◌<◌, ◌≡◌, refl, ap, sym, subst, Bool, true, false, arith, ◌==◌, ==_iff,
  inl, inr, Bool-cases,
}
use libzdb.Db.Sqlite.Adapter.{Sqlite, backoff, busy, exec_from, exec_or_backoff}

module _ (q : Sqlite) {R : Type 0} (status : R → ℕ) (call : q.World → R × q.World) where
  -- The call, after as many that were followed by a wait each.
  abbrev pub attempt : ℕ → q.World → R × q.World
  attempt zero w = call w
  attempt (suc k) w = call (backoff q k (attempt k w).1)

  abbrev pub is_busy : ℕ → q.World → Bool
  is_busy k w = busy q (status (attempt k w).0)

  exec_from-attempt :
      (rounds j k : ℕ) (w : q.World)
      → j < k
      → k ≤ j + rounds
      → ((i : ℕ) → i < k → is_busy i w ≡ true)
      → is_busy k w ≡ false
      → exec_from q status call rounds (suc j) (attempt j w).0 (backoff q j (attempt j w).1)
        ≡ attempt k w
  unfolding exec_from
  exec_from-attempt zero j k w lt le before free = absurd (omega arith)
  exec_from-attempt (suc rounds) j k w lt le before free = elim (Bool-cases (suc j == k)) [
    | inl e ↦
        let same : suc j ≡ k = (==_iff (suc j) k).0 e in
        let done : is_busy (suc j) w ≡ false = subst (λ i. is_busy i w ≡ false) (sym same) free in
        rw done (ap (λ i. attempt i w) same)
    | inr e ↦
        let later : suc j < k = ground arith in
        rw (before (suc j) later)
          (exec_from-attempt rounds (suc j) k w later (omega arith) before free)
  ]

  -- Where one of the first ten calls finds the database neither busy nor locked, the result is that of the
  -- first call that does, and nothing is called after it.
  pub exec_or_backoff-attempt :
      (k : ℕ) (w : q.World)
      → k ≤ 9
      → ((i : ℕ) → i < k → is_busy i w ≡ true)
      → is_busy k w ≡ false
      → exec_or_backoff q status call w ≡ attempt k w
  unfolding exec_or_backoff
  exec_or_backoff-attempt zero w le before free = rw free refl
  exec_or_backoff-attempt (suc k) w le before free =
      rw (before 0 (omega arith))
        (exec_from-attempt 9 0 (suc k) w (omega arith) (omega arith) before free)
