-- ===== src/Db/Postgresql/Rows/Counting.antt =====
-- How often a result set has a next row.
use libzdb.Prelude.{ℕ, zero, suc, ◌≡◌, refl, ap, ◌∙◌, ◌&&◌, ◌||◌, arith, ltb, ◌==◌}
use libzdb.Prelude.Int.{ℤ, pos, negsuc, ◌-ℤ◌}
use libzdb.Db.Postgresql.Adapter.{Libpq}
use libzdb.Db.Postgresql.Rows.{Rows, new, next}

module _ (q : Libpq) where
  -- After a number of calls.
  abbrev pub nexts : ℕ → Rows q → Rows q
  nexts zero R = R
  nexts (suc k) R = (next q (nexts k R)).1

  abbrev row : ℕ → ℤ
  row zero = negsuc 0
  row (suc k) = pos k

  next_row :
      (R : Rows q) (k : ℕ)
      → (next q (record R { current_row = row k })).1 ≡ record R { current_row = row (suc k) }
  unfolding next ◌-ℤ◌
  next_row R zero = refl
  next_row R (suc k) = ap (λ i. record R { current_row = i }) (ground arith)

  nexts-row :
      (max_rows : ℤ) (res : q.Res) (w : q.World) (k : ℕ)
      → nexts k (new q max_rows res w) ≡ record (new q max_rows res w) { current_row = row k }
  unfolding new
  nexts-row max_rows res w zero = refl
  nexts-row max_rows res w (suc k) =
      ap (λ R. (next q R).1) (nexts-row max_rows res w k) ∙ next_row (new q max_rows res w) k

  next_more :
      (most n k : ℕ) (R : Rows q)
      → R.max_rows ≡ pos most
      → R.row_count ≡ pos n
      → (next q (record R { current_row = row k })).0 ≡ (ltb k n && (most == 0 || ltb k most))
  unfolding next ◌-ℤ◌
  next_more most n zero R e f = rw (e, f, next) (ground arith)
  next_more most n (suc k) R e f = rw (e, f, next) (ground arith)

  -- A result of n rows, read with a maximum of rows that is not negative, has a next row after k calls if k
  -- is below n and, where the maximum is not zero, below the maximum.
  pub next-nexts :
      (most n : ℕ) (res : q.Res) (w : q.World) (k : ℕ)
      → q.ntuples res w ≡ pos n
      → (next q (nexts k (new q (pos most) res w))).0 ≡ (ltb k n && (most == 0 || ltb k most))
  unfolding new
  next-nexts most n res w k e =
      ap (λ R. (next q R).0) (nexts-row (pos most) res w k)
      ∙ next_more most n k (new q (pos most) res w) refl e
