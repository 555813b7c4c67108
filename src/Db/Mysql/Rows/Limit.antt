-- ===== src/Db/Mysql/Rows/Limit.antt =====
-- That no more rows are fetched than the maximum.
use libzdb.Prelude.{
  ℕ, ◌≤◌, ◌<◌, ◌≡◌, refl, Bool, true, false, not, ◌&&◌, ok, ◌==◌, if◌then◌else◌, arith, inl, inr,
  Bool-cases, subst,
}
use libzdb.Prelude.Int.{pos, ltb_ℤ}
use libzdb.Db.Mysql.Adapter.{Mysql}
use libzdb.Db.Mysql.Rows.{Rows, Outcome, fetch, next}

if_both :
    {A : Type 0} (P : A → Type 0) (b : Bool) (x y : A)
    → (b ≡ true → P x)
    → (b ≡ false → P y)
    → P (if b then x else y)
if_both P true x y f g = f refl
if_both P false x y f g = g refl

module _ (q : Mysql) where
  fetch-limit :
      (most : ℕ) (R : Rows q) (w : q.World)
      → R.current_row < most
      → (fetch q R w).1.current_row ≤ most
  unfolding fetch
  fetch-limit most R w h = ground arith

  next_stopped : (R : Rows q) (w : q.World) → R.stop ≡ true → next q R w ≡ (ok false, R, w)
  unfolding next
  next_stopped R w e = rw (e, next) refl

  abbrev is_full : Rows q → Bool
  is_full R = ltb_ℤ (pos 0) R.max_rows && not (ltb_ℤ (pos R.current_row) R.max_rows)

  next_full :
      (R : Rows q) (w : q.World)
      → R.stop ≡ false
      → is_full R ≡ true
      → next q R w ≡ (ok false, record R { stop = true }, (q.stmt_reset R.stmt w).1)
  unfolding next
  next_full R w e f = rw (e, f, next) refl

  below_most :
      (R : Rows q) (most : ℕ)
      → R.max_rows ≡ pos most
      → 0 < most
      → is_full R ≡ false
      → R.current_row < most
  below_most R most e some more =
      let test : (ltb_ℤ (pos 0) (pos most) && not (ltb_ℤ (pos R.current_row) (pos most))) ≡ false =
        subst (λ m. (ltb_ℤ (pos 0) m && not (ltb_ℤ (pos R.current_row) m)) ≡ false) e more in
      ground arith

  next_row :
      (most : ℕ) (R : Rows q) (w : q.World)
      → R.max_rows ≡ pos most
      → 0 < most
      → R.current_row ≤ most
      → (next q R w).1.current_row ≤ most
  unfolding next
  next_row most R w e some h =
      let Few = λ (o : Outcome q Bool). o.1.current_row ≤ most in
      if_both Few R.stop _ _ (λ stopped. h)
        (λ going.
          if_both Few (is_full R) _ _ (λ full. h)
            (λ more.
              let below = below_most R most e some more in
              if_both Few R.need_rebind _ _
                (λ rebind.
                  if_both Few ((q.stmt_bind_result R.stmt R.columns w).0 == 0) _ _
                    (λ fine.
                      fetch-limit most
                        (record R {
                          last_error = (q.stmt_bind_result R.stmt R.columns w).0;
                          need_rebind = false;
                        })
                        (q.stmt_bind_result R.stmt R.columns w).1 below)
                    (λ failed. h))
                (λ bound. fetch-limit most R w below)))

  -- Where there is a maximum of rows, and no more than those were read, the next call does not read more, and
  -- once they are read it says that there is no row, and does no more than reset the statement.
  pub next-limit :
      (most : ℕ) (R : Rows q) (w : q.World)
      → R.max_rows ≡ pos most
      → 0 < most
      → R.current_row ≤ most
      → ((next q R w).1.current_row ≤ most)
        × (R.current_row ≡ most
            → ((next q R w).0 ≡ ok false)
              × ((next q R w).2 ≡ (if R.stop then w else (q.stmt_reset R.stmt w).1)))
  next-limit most R w e some h = elim (Bool-cases R.stop) [
    | inl stopped ↦ rw (next_stopped R w stopped, stopped) (h, λ all. (refl, refl))
    | inr going ↦ elim (Bool-cases (is_full R)) [
      | inl full ↦ rw (next_full R w going full, going) (h, λ all. (refl, refl))
      | inr more ↦
          let below : R.current_row < most = below_most R most e some more in
          (next_row most R w e some h, λ all. absurd (omega arith))
    ]
  ]
