-- ===== src/Db/Oracle/Columns.antt =====
-- How src/db/oracle/OracleResultSet.c makes and frees its delegate. The message that a debug line fetches is
-- part of the model, the line is not.
pub mod Counting
use libzdb.Prelude.{
  ℕ, zero, suc, ◌-◌, ◌%◌, ◌^◌, Bool, true, false, ◌&&◌, List, [], ◌∷◌, ◌++◌, Option, some, none,
  Result, ok, err, sql_exception, assert_exception, ◌==◌, if◌then◌else◌, take, set, get_or,
  replicate, length,
}
use libzdb.Prelude.Int.{ℤ, pos, negsuc, ltb_ℤ}
use libzdb.Db.Oracle.Adapter.{Oci, Status, Column, ColumnType, is_success, is_fine, get_last_error}

-- `struct ResultSetDelegate_T`, less the address of the connection.
pub record Rows (q : Oci) : Type 0 where
  pub current_row : ℤ
  pub fetch_size : ℤ
  pub max_rows : ℕ
  pub stmt : Option q.Stmt
  pub env : Option q.Env
  pub usr : Option q.Usr
  pub err : Option q.Err
  pub svc : Option q.Svc
  pub columns : List (Column q.Lob q.Date)
  pub last_error : Status
  pub free_statement : Bool

-- An `int` as a `ub4`.
pub to_ub4 : ℤ → ℕ
to_ub4 (pos n) = n % 2 ^ 32
to_ub4 (negsuc n) = 2 ^ 32 - suc (n % 2 ^ 32)

module _ (q : Oci) where
  abbrev pub Outcome : Type 0 → Type 0
  Outcome A = Result A × Rows q × q.World

  -- What CALLOC leaves.
  abbrev pub no_column : Column q.Lob q.Date
  no_column = record {
    is_null = false;
    buffer = none;
    name = none;
    length = 0;
    lob_loc = none;
    date = none;
  }

  abbrev pub column : Rows q → ℕ → Column q.Lob q.Date
  column R i = get_or R.columns i no_column

  abbrev pub put_column : Rows q → ℕ → Column q.Lob q.Date → Rows q
  put_column R i c = record R { columns = set R.columns i c }

  -- RESIZE to a number of cells.
  abbrev pub resize : List ℕ → ℕ → List ℕ
  resize a n = take n a ++ replicate (n - length a) q.junk

  -- THROW with the message of the last error.
  abbrev pub raise : {A : Type 0} → Rows q → q.World → Outcome A
  raise R w = let (t, w') = get_last_error q R.last_error R.err w in (err (sql_exception t), R, w')

  -- A debug line with the message of a status.
  abbrev pub debug : Status → Option q.Err → q.World → q.World
  debug status e w = (get_last_error q status e w).1

  -- What the loop of `_initaleDefiningBuffers` does by the type of the column: what the client library fills
  -- is made, and the column is defined.
  pub define : ℕ → Rows q → Column q.Lob q.Date → ColumnType → q.World → Rows q × q.World
  define i R c type w =
      let put : Column q.Lob q.Date → ℕ → q.World → Rows q × q.World = λ d size v.
        let (status, v') = q.define_by_pos R.stmt R.err (suc i) d size v in
        (record (put_column R i d) { last_error = status }, v') in
      let with_lob : Rows q × q.World =
        let ((status, lob), w1) = q.alloc_lob R.env w in
        put (record c { buffer = none; lob_loc = lob }) c.length w1 in
      elim type [
        | ColumnType.blob ↦ with_lob
        | ColumnType.clob ↦ with_lob
        | ColumnType.timestamp ↦
            let ((status, date), w1) = q.alloc_date R.env w in
            put (record c { buffer = none; date = date }) 8 w1
        | ColumnType.text ↦
            put (record c { buffer = some (replicate (suc c.length) q.junk); lob_loc = none })
              c.length w
      ]

  -- The name of a column, where it can be had; where not, the descriptor stays.
  pub name_column : ℕ → Rows q → Option q.Parameter → q.World → Rows q × q.World
  name_column i R pard w =
      let (status, name) = q.column_name pard R.err w in
      let c = record (column R i) { name = some (q.to_lower R.env name w) } in
      let S = record R { last_error = status } in
      if is_success status then (put_column S i c, q.free_param pard w) else (S, w)

  -- The body of the loop; `false` ends it.
  pub define_column : ℕ → Rows q → q.World → Bool × Rows q × q.World
  unfolding define name_column
  define_column i R w =
      let ((got, pard), w1) = q.param_get R.stmt R.err (pos (suc i)) w in
      let (sized, size) = q.data_size pard R.err w1 in
      let c = record (column R i) { length = suc size; is_null = false } in
      let (D, w2) = define i (record R { last_error = sized }) c (q.data_type pard R.err w1) w1 in
      let (N, w3) = name_column i D pard w2 in
      if is_success got
      then if is_success sized
        then (true, N, w3)
        else (false, record R { last_error = sized }, q.free_param pard w1)
      else (false, record R { last_error = got }, w1)

  -- `_initaleDefiningBuffers`, from a column on.
  pub define_columns : ℕ → ℕ → Rows q → q.World → Bool × Rows q × q.World
  unfolding define_column
  define_columns zero i R w = (true, R, w)
  define_columns (suc n) i R w =
      let (going, S, w') = define_column i R w in
      elim going [ false ↦ (false, S, w') | true ↦ define_columns n (suc i) S w' ]

  pub set_fetch_size : Rows q → ℤ → q.World → Outcome (Unit {0})
  set_fetch_size R rows w =
      let (status, w') = q.set_prefetch_rows R.stmt rows R.err w in
      if ltb_ℤ (pos 0) rows
      then (
        ok tt,
        record R { last_error = status; fetch_size = rows },
        if is_success status then w' else debug status R.err w',
      )
      else (err assert_exception, R, w)

  abbrev pub given : {A : Type 0} → Option A → Bool
  given none = false
  given (some a) = true

  -- `OracleResultSet_new`, given the connection's maximum of rows and its fetch size. CALLOC does not take a
  -- count of 0.
  pub new :
      ℤ
      → ℤ
      → Option q.Stmt
      → Option q.Env
      → Option q.Usr
      → Option q.Err
      → Option q.Svc
      → Bool
      → q.World
      → Result (Rows q) × q.World
  unfolding define_columns
  new max_rows rows stmt env usr e svc need_free w =
      let (status, count) = q.column_count stmt e w in
      let w1 = if is_fine status then w else debug status e w in
      let empty : Rows q = record {
        current_row = pos 0;
        fetch_size = pos 0;
        max_rows = to_ub4 max_rows;
        stmt = stmt;
        env = env;
        usr = usr;
        err = e;
        svc = svc;
        columns = replicate count no_column;
        last_error = status;
        free_statement = need_free;
      } in
      let (defined, R, w2) = define_columns count 0 empty w1 in
      let (sized, S, w3) = set_fetch_size R rows w2 in
      let made : Result (Rows q) = elim sized [ err x ↦ err x | ok u ↦ ok S ] in
      if given stmt && given env && given e && given svc
      then if count == 0
        then (err assert_exception, w1)
        else if defined
        then (made, w3)
        else (ok (record R { current_row = negsuc 0 }), debug R.last_error e w2)
      else (err assert_exception, w)

  -- The loop of `_free`.
  free_columns : List (Column q.Lob q.Date) → q.World → q.World
  free_columns [] w = w
  free_columns (c ∷ cs) w =
      let w1 = if given c.lob_loc then q.free_lob c.lob_loc w else w in
      let w2 = if given c.date then q.free_date c.date w1 else w1 in free_columns cs w2

  pub free : Rows q → q.World → q.World
  unfolding free_columns
  free R w = free_columns R.columns (if R.free_statement then q.free_stmt R.stmt w else w)
