-- ===== src/Db/Oracle/Columns/Counting.antt =====
-- The statement handles of the client library, which making a result set neither makes nor frees.
use libzdb.Prelude.{
  ℕ, zero, suc, ◌-◌, ◌≡◌, refl, ◌∙◌, Bool, true, false, Option, Text, ◌==◌, if◌then◌else◌, inl, inr,
  Option-cases, ◌&&◌, Result, ok, err, replicate,
}
use libzdb.Prelude.Int.{ℤ, pos, negsuc, ltb_ℤ}
use libzdb.Db.Oracle.Adapter.{
  Oci, Status, Column, ColumnType, is_success, is_fine, get_last_error, get_err_buffer,
}
use libzdb.Db.Oracle.Columns.{
  Rows, column, define, name_column, define_column, define_columns, set_fetch_size, new, given,
  to_ub4, no_column,
}

-- What the client library says of its statement handles: how many there are.
pub record Counted (q : Oci) : Type 0 where
  pub live : q.World → ℕ
  pub alloc_live :
      (e : Option q.Env) (w : q.World)
      → live (q.alloc_stmt e w).1
        ≡ (if is_fine (q.alloc_stmt e w).0.0 then suc (live w) else live w)
  pub free_live : (s : Option q.Stmt) (w : q.World) → live (q.free_stmt s w) ≡ live w - 1
  pub prepare_live :
      (s : Option q.Stmt) (e : Option q.Err) (t : Text) (w : q.World)
      → live (q.stmt_prepare s e t w).1 ≡ live w
  pub execute_live :
      (v : Option q.Svc) (s : Option q.Stmt) (e : Option q.Err) (n : ℕ) (w : q.World)
      → live (q.stmt_execute v s e n w).1 ≡ live w
  pub prefetch_live :
      (s : Option q.Stmt) (n : ℤ) (e : Option q.Err) (w : q.World)
      → live (q.set_prefetch_rows s n e w).1 ≡ live w
  pub param_live :
      (s : Option q.Stmt) (e : Option q.Err) (i : ℤ) (w : q.World)
      → live (q.param_get s e i w).1 ≡ live w
  pub free_param_live : (p : Option q.Parameter) (w : q.World) → live (q.free_param p w) ≡ live w
  pub define_live :
      (s : Option q.Stmt) (e : Option q.Err) (i : ℕ) (d : Column q.Lob q.Date) (n : ℕ) (w : q.World)
      → live (q.define_by_pos s e i d n w).1 ≡ live w
  pub lob_live : (e : Option q.Env) (w : q.World) → live (q.alloc_lob e w).1 ≡ live w
  pub date_live : (e : Option q.Env) (w : q.World) → live (q.alloc_date e w).1 ≡ live w
  pub buffer_live : (t : Text) (w : q.World) → live (q.set_thread_buffer t w) ≡ live w

pub if_both :
    {A : Type 0} (P : A → Type 0) (b : Bool) (x y : A)
    → (b ≡ true → P x)
    → (b ≡ false → P y)
    → P (if b then x else y)
if_both P true x y f g = f refl
if_both P false x y f g = g refl

module _ (q : Oci) (c : Counted q) where
  err_buffer-live : (w : q.World) → c.live (get_err_buffer q w).1 ≡ c.live w
  unfolding get_err_buffer
  err_buffer-live w = elim (Option-cases (q.thread_buffer w)) [
    | inl e ↦ rw (e, get_err_buffer) (c.buffer_live q.junk_text w)
    | inr (t, e) ↦ rw (e, get_err_buffer) refl
  ]

  last_error-live :
      (status : Status) (e : Option q.Err) (w : q.World)
      → c.live (get_last_error q status e w).1 ≡ c.live w
  unfolding get_last_error
  last_error-live Status.error e w = c.buffer_live _ _ ∙ err_buffer-live w
  last_error-live Status.success e w = err_buffer-live w
  last_error-live Status.success_with_info e w = err_buffer-live w
  last_error-live Status.need_data e w = err_buffer-live w
  last_error-live Status.no_data e w = err_buffer-live w
  last_error-live Status.invalid_handle e w = err_buffer-live w
  last_error-live Status.still_executing e w = err_buffer-live w
  last_error-live Status.continue e w = err_buffer-live w
  last_error-live (Status.other n) e w = err_buffer-live w

  column_define-live :
      (i : ℕ) (R : Rows q) (d : Column q.Lob q.Date) (type : ColumnType) (w : q.World)
      → c.live (define q i R d type w).1 ≡ c.live w
  unfolding define
  column_define-live i R d ColumnType.blob w = c.define_live _ _ _ _ _ _ ∙ c.lob_live R.env w
  column_define-live i R d ColumnType.clob w = c.define_live _ _ _ _ _ _ ∙ c.lob_live R.env w
  column_define-live i R d ColumnType.timestamp w = c.define_live _ _ _ _ _ _ ∙ c.date_live R.env w
  column_define-live i R d ColumnType.text w = c.define_live _ _ _ _ _ _

  name_column-live :
      (i : ℕ) (R : Rows q) (p : Option q.Parameter) (w : q.World)
      → c.live (name_column q i R p w).1 ≡ c.live w
  unfolding name_column
  name_column-live i R p w =
      if_both (λ (r : Rows q × q.World). c.live r.1 ≡ c.live w)
        (is_success (q.column_name p R.err w).0) _ _ (λ named. c.free_param_live p w)
        (λ unnamed. refl)

  define_column-live :
      (i : ℕ) (R : Rows q) (w : q.World) → c.live (define_column q i R w).2 ≡ c.live w
  unfolding define_column
  define_column-live i R w =
      let got = (q.param_get R.stmt R.err (pos (suc i)) w).0.0 in
      let pard = (q.param_get R.stmt R.err (pos (suc i)) w).0.1 in
      let w1 = (q.param_get R.stmt R.err (pos (suc i)) w).1 in
      let S = record R { last_error = (q.data_size pard R.err w1).0 } in
      let d : Column q.Lob q.Date = record (column q R i) {
        length = suc (q.data_size pard R.err w1).1;
        is_null = false;
      } in
      let D = define q i S d (q.data_type pard R.err w1) w1 in
      let had : c.live w1 ≡ c.live w = c.param_live R.stmt R.err (pos (suc i)) w in
      if_both (λ (r : Bool × Rows q × q.World). c.live r.2 ≡ c.live w) (is_success got) _ _
        (λ given.
          if_both (λ (r : Bool × Rows q × q.World). c.live r.2 ≡ c.live w)
            (is_success (q.data_size pard R.err w1).0) _ _
            (λ sized.
              name_column-live i D.0 pard D.1
              ∙ column_define-live i S d (q.data_type pard R.err w1) w1
              ∙ had)
            (λ unsized. c.free_param_live pard w1 ∙ had))
        (λ refused. had)

  going_on :
      (n : ℕ) (rest : Rows q → q.World → Bool × Rows q × q.World) (r : Bool × Rows q × q.World)
      → c.live r.2 ≡ n
      → ((S : Rows q) (w : q.World) → c.live w ≡ n → c.live (rest S w).2 ≡ n)
      → c.live
          (elim r.0 as (λ x. Bool × Rows q × q.World) [
            | false ↦ (false, r.1, r.2)
            | true ↦ rest r.1 r.2
          ]).2
        ≡ n
  going_on n rest (false, S, w) h f = h
  going_on n rest (true, S, w) h f = f S w h

  define_columns-live :
      (n i : ℕ) (R : Rows q) (w : q.World) → c.live (define_columns q n i R w).2 ≡ c.live w
  unfolding define_columns
  define_columns-live zero i R w = refl
  define_columns-live (suc n) i R w =
      going_on (c.live w) (λ S w'. define_columns q n (suc i) S w') (define_column q i R w)
        (define_column-live i R w) (λ S w' h. define_columns-live n (suc i) S w' ∙ h)

  set_fetch_size-live :
      (R : Rows q) (rows : ℤ) (w : q.World) → c.live (set_fetch_size q R rows w).2 ≡ c.live w
  unfolding set_fetch_size
  set_fetch_size-live R rows w =
      let status = (q.set_prefetch_rows R.stmt rows R.err w).0 in
      let told = c.prefetch_live R.stmt rows R.err w in
      if_both (λ (r : Result (Unit {0}) × Rows q × q.World). c.live r.2 ≡ c.live w)
        (ltb_ℤ (pos 0) rows) _ _
        (λ positive.
          if_both (λ v. c.live v ≡ c.live w) (is_success status) _ _ (λ fine. told)
            (λ bad. last_error-live status R.err _ ∙ told))
        (λ negative. refl)

  abbrev sized : Result (Unit {0}) → Rows q → Result (Rows q)
  sized r S = elim r [ err x ↦ err x | ok u ↦ ok S ]

  -- However it ends.
  pub new-live :
      (max_rows rows : ℤ) (stmt : Option q.Stmt) (env : Option q.Env) (usr : Option q.Usr)
      (e : Option q.Err) (svc : Option q.Svc) (need_free : Bool) (w : q.World)
      → c.live (new q max_rows rows stmt env usr e svc need_free w).1 ≡ c.live w
  unfolding new
  new-live max_rows rows stmt env usr e svc need_free w =
      let status = (q.column_count stmt e w).0 in
      let count = (q.column_count stmt e w).1 in
      let w1 = if is_fine status then w else (get_last_error q status e w).1 in
      let asked : c.live w1 ≡ c.live w =
        if_both (λ v. c.live v ≡ c.live w) (is_fine status) _ _ (λ fine. refl)
          (λ bad. last_error-live status e w) in
      let empty : Rows q = record {
        current_row = pos 0;
        fetch_size = pos 0;
        max_rows = to_ub4 max_rows;
        stmt = stmt;
        env = env;
        usr = usr;
        err = e;
        svc = svc;
        columns = replicate count (no_column q);
        last_error = status;
        free_statement = need_free;
      } in
      let o = define_columns q count 0 empty w1 in
      let all_defined : c.live o.2 ≡ c.live w = define_columns-live count 0 empty w1 ∙ asked in
      let P = λ (r : Result (Rows q) × q.World). c.live r.1 ≡ c.live w in
      if_both P (given q stmt && given q env && given q e && given q svc) _ _
        (λ all.
          if_both P (count == 0) _ _ (λ no_columns. asked)
            (λ columns.
              if_both P o.0
                (
                  sized (set_fetch_size q o.1 rows o.2).0 (set_fetch_size q o.1 rows o.2).1,
                  (set_fetch_size q o.1 rows o.2).2,
                )
                (
                  ok (record o.1 { current_row = negsuc 0 }),
                  (get_last_error q o.1.last_error e o.2).1,
                )
                (λ defined. set_fetch_size-live o.1 rows o.2 ∙ all_defined)
                (λ undefined. last_error-live o.1.last_error e o.2 ∙ all_defined)))
        (λ missing. refl)
