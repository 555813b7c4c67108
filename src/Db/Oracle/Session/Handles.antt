-- ===== src/Db/Oracle/Session/Handles.antt =====
-- The statement handles that the functions of the connection make and free.
use libzdb.Prelude.{
  ℕ, suc, ◌-◌, ◌≡◌, ◌∙◌, ap, Bool, true, false, Option, some, none, Text, Result, ok, err, arith,
  if◌then◌else◌,
}
use libzdb.Prelude.Int.{ℤ}
use libzdb.Db.Oracle.Adapter.{Oci, is_success, is_fine}
use libzdb.Db.Oracle.Columns.{Rows, new}
use libzdb.Db.Oracle.Columns.Counting.{Counted, if_both, new-live}
use libzdb.Db.Oracle.Connecting.{Session}
use libzdb.Db.Oracle.Session.{build, run, execute_trimmed, query_trimmed}

module _ (q : Oci) (c : Counted q) where
  -- After a statement is made, or not.
  abbrev Built : ℕ → Option (Option q.Stmt) × Session q × q.World → Type 0
  Built n (none, D, w) = c.live w ≡ n
  Built n (some s, D, w) = c.live w ≡ suc n

  build-live : (C : Session q) (sql : Text) (w : q.World) → Built (c.live w) (build q C sql w)
  unfolding build
  build-live C sql w =
      let s = (q.alloc_stmt C.env w).0.1 in
      let w1 = (q.alloc_stmt C.env w).1 in
      let p = c.prepare_live s C.err sql w1 in
      let a = c.alloc_live C.env w in
      if_both (Built (c.live w)) (is_fine (q.alloc_stmt C.env w).0.0) _ _
        (λ fine.
          let made : c.live w1 ≡ suc (c.live w) =
            a ∙ ap (λ (b : Bool). if b then suc (c.live w) else c.live w) fine in
          if_both (Built (c.live w)) (is_fine (q.stmt_prepare s C.err sql w1).0) _ _
            (λ good. p ∙ made)
            (λ bad.
              c.free_live s (q.stmt_prepare s C.err sql w1).1
              ∙ ap (λ n. n - 1) (p ∙ made)
              ∙ omega arith))
        (λ bad. a ∙ ap (λ (b : Bool). if b then suc (c.live w) else c.live w) bad)

  -- After it ran, which frees it if it fails.
  abbrev Ran : ℕ → Bool × Session q × q.World → Type 0
  Ran n (true, E, w) = c.live w ≡ suc n
  Ran n (false, E, w) = c.live w ≡ n

  run-live :
      (k n : ℕ) (C : Session q) (s : Option q.Stmt) (w : q.World)
      → c.live w ≡ suc n
      → Ran n (run q k C s w)
  unfolding run
  run-live k n C s w h =
      let e = c.execute_live C.svc s C.err k w ∙ h in
      if_both (Ran n) (is_fine (q.stmt_execute C.svc s C.err k w).0.0) _ _ (λ fine. e)
        (λ bad.
          c.free_live s (q.stmt_execute C.svc s C.err k w).1 ∙ ap (λ m. m - 1) e ∙ omega arith)

  -- What `execute_trimmed` does with what ran, and with what was built.
  abbrev end_execute : Option q.Stmt → Bool × Session q × q.World → Bool × Session q × q.World
  end_execute s r =
      let (ran, E, w2) = r in
      if ran then (is_success E.last_error, E, q.free_stmt s w2) else (false, E, w2)

  end_execute-live :
      (n : ℕ) (s : Option q.Stmt) (r : Bool × Session q × q.World)
      → Ran n r
      → c.live (end_execute s r).2 ≡ n
  end_execute-live n s (false, E, w) h = h
  end_execute-live n s (true, E, w) h = c.free_live s w ∙ ap (λ m. m - 1) h ∙ omega arith

  abbrev run_built :
      {A : Type 0}
      → (Session q → q.World → A)
      → (Session q → Option q.Stmt → q.World → A)
      → Option (Option q.Stmt) × Session q × q.World
      → A
  run_built failed built o =
      let (stmt, D, w1) = o in elim stmt [ none ↦ failed D w1 | some s ↦ built D s w1 ]

  run_built_lem :
      {A : Type 0} (P : A → Type 0) (n : ℕ) (failed : Session q → q.World → A)
      (built : Session q → Option q.Stmt → q.World → A)
      (o : Option (Option q.Stmt) × Session q × q.World)
      → Built n o
      → ((D : Session q) (w : q.World) → c.live w ≡ n → P (failed D w))
      → ((D : Session q) (s : Option q.Stmt) (w : q.World) → c.live w ≡ suc n → P (built D s w))
      → P (run_built failed built o)
  run_built_lem P n failed built (none, D, w) h f g = f D w h
  run_built_lem P n failed built (some s, D, w) h f g = g D s w h

  execute_trimmed-live :
      (C : Session q) (sql : Text) (w : q.World) → c.live (execute_trimmed q C sql w).2 ≡ c.live w
  unfolding execute_trimmed
  execute_trimmed-live C sql w =
      let B = record C { rows_changed = 0 } in
      run_built_lem (λ r. c.live r.2 ≡ c.live w) (c.live w) (λ D v. (false, D, v))
        (λ D s v. end_execute s (run q 1 D s v)) (build q B sql w) (build-live B sql w) (λ D v h. h)
        (λ D s v h. end_execute-live (c.live w) s (run q 1 D s v) (run-live 1 (c.live w) D s v h))

  abbrev of_rows : Result (Rows q) → Result (Option (Rows q))
  of_rows made = elim made [ err e ↦ err e | ok R ↦ ok (some R) ]

  -- What `query_trimmed` does with what ran.
  abbrev end_query :
      (Option q.Stmt → Session q → q.World → Result (Rows q) × q.World)
      → Option q.Stmt
      → Bool × Session q × q.World
      → Result (Option (Rows q)) × Session q × q.World
  end_query make s r =
      let (ran, E, w2) = r in
      let (made, w3) = make s E w2 in if ran then (of_rows made, E, w3) else (ok none, E, w2)

  -- NULL leaves so many handles; rows, and an exception, leave one more.
  abbrev pub Balanced : ℕ → Result (Option (Rows q)) × Session q × q.World → Type 0
  Balanced n (ok none, E, w) = c.live w ≡ n
  Balanced n (ok (some R), E, w) = c.live w ≡ suc n
  Balanced n (err e, E, w) = c.live w ≡ suc n

  rows-Balanced :
      (n : ℕ) (made : Result (Rows q)) (E : Session q) (w : q.World)
      → c.live w ≡ suc n
      → Balanced n (of_rows made, E, w)
  rows-Balanced n (err e) E w h = h
  rows-Balanced n (ok R) E w h = h

  end_query-live :
      (n : ℕ) (make : Option q.Stmt → Session q → q.World → Result (Rows q) × q.World)
      → ((s : Option q.Stmt) (E : Session q) (w : q.World) → c.live (make s E w).1 ≡ c.live w)
      → (s : Option q.Stmt) (r : Bool × Session q × q.World) → Ran n r
      → Balanced n (end_query make s r)
  end_query-live n make keeps s (false, E, w) h = h
  end_query-live n make keeps s (true, E, w) h =
      rows-Balanced n (make s E w).0 E (make s E w).1 (keeps s E w ∙ h)

  query_trimmed-live :
      (most rows : ℤ) (C : Session q) (sql : Text) (w : q.World)
      → Balanced (c.live w) (query_trimmed q most rows C sql w)
  unfolding query_trimmed
  query_trimmed-live most rows C sql w =
      let B = record C { rows_changed = 0 } in
      let make = λ (s : Option q.Stmt) (E : Session q) (v : q.World).
        new q most rows s E.env E.usr E.err E.svc true v in
      run_built_lem (Balanced (c.live w)) (c.live w) (λ D v. (ok none, D, v))
        (λ D s v. end_query make s (run q 0 D s v)) (build q B sql w) (build-live B sql w)
        (λ D v h. h)
        (λ D s v h.
          end_query-live (c.live w) make
            (λ s E v. new-live q c most rows s E.env E.usr E.err E.svc true v) s (run q 0 D s v)
            (run-live 0 (c.live w) D s v h))

  -- However it ends, a statement that is executed leaves as many statement handles as there were, and so does a
  -- query that returns NULL. A query that returns rows leaves one more, and so does a query that ends
  -- in an exception.
  pub execute_trimmed-query_trimmed :
      (most rows : ℤ) (C : Session q) (sql : Text) (w : q.World)
      → (c.live (execute_trimmed q C sql w).2 ≡ c.live w)
        × Balanced (c.live w) (query_trimmed q most rows C sql w)
  execute_trimmed-query_trimmed most rows C sql w =
      (execute_trimmed-live C sql w, query_trimmed-live most rows C sql w)
