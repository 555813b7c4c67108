-- ===== src/Db/Mysql/Rows.antt =====
-- src/db/mysql/MysqlResultSet.c. The arrays `bind` and `columns` are one list of columns.
pub mod Room
pub mod Limit
use libzdb.Prelude.{
  ℕ, zero, suc, ◌+◌, ◌-◌, Bool, true, false, not, ◌&&◌, ◌||◌, List, [], ◌∷◌, ◌++◌, Option, some,
  none, Text, Result, ok, err, sql_exception, assert_exception, ◌==◌, ltb, if◌then◌else◌, take, set,
  get_or, replicate, length,
}
use libzdb.Prelude.Int.{ℤ, pos, negsuc, ◌-ℤ◌, ltb_ℤ}
use libzdb.Util.Str.{lit}
use libzdb.Util.StringBuffer.{c_string}
use libzdb.Db.Delegate.{check_index}
use libzdb.Db.Mysql.Adapter.{Mysql, Column}

-- `struct ResultSetDelegate_T`
pub record Rows (q : Mysql) : Type 0 where
  pub stop : Bool
  pub keep : Bool
  pub max_rows : ℤ
  pub fetch_size : ℤ
  pub last_error : ℕ
  pub need_rebind : Bool
  pub current_row : ℕ
  pub column_count : ℕ
  pub meta : Option q.Meta
  pub stmt : q.Stmt
  pub columns : List Column

abbrev out_of_range : Text
out_of_range = lit "Column index is out of range"

-- STRLEN
abbrev strlen : ℕ
strlen = 256

module _ (q : Mysql) where
  abbrev pub Outcome : Type 0 → Type 0
  Outcome A = Result A × Rows q × q.World

  -- What is read of a column that the array does not have, where the source reads behind it.
  abbrev pub no_column : Column
  no_column = record { is_null = true; real_length = 0; buffer_length = 0; buffer = []; name = [] }

  abbrev pub column : Rows q → ℕ → Column
  column R i = get_or R.columns i no_column

  abbrev put_column : Rows q → ℕ → Column → Rows q
  put_column R i c = record R { columns = set R.columns i c }

  -- RESIZE to a number of cells.
  abbrev resize : List ℕ → ℕ → List ℕ
  resize a n = take n a ++ replicate (n - length a) q.junk

  -- `_ensureCapacity`: a column that was cut is given room and fetched again.
  pub ensure_capacity : Rows q → ℕ → q.World → Outcome (Unit {0})
  ensure_capacity R i w =
      let c = column R i in
      let roomy = record c {
        buffer_length = c.real_length;
        buffer = resize c.buffer (suc c.real_length);
      } in
      let ((status, fetched), w') = q.stmt_fetch_column R.stmt i roomy w in
      let S = record (put_column R i fetched) { last_error = status } in
      let message = lit "mysql_stmt_fetch_column -- " ++ q.stmt_error R.stmt w' in
      if ltb c.buffer_length c.real_length
      then if status == 0
        then (ok tt, record S { need_rebind = true }, w')
        else (err (sql_exception message), S, w')
      else (ok tt, R, w)

  pub set_fetch_size : Rows q → ℤ → q.World → Outcome (Unit {0})
  set_fetch_size R rows w =
      let (status, w') = q.stmt_prefetch_rows R.stmt rows w in
      if ltb_ℤ (pos 0) rows
      then (ok tt, record R { last_error = status; fetch_size = rows }, w')
      else (err assert_exception, R, w)

  pub get_fetch_size : Rows q → ℤ
  get_fetch_size R = R.fetch_size

  -- The columns from one on, as the constructor lays them out.
  fresh_columns : q.Meta → ℕ → ℕ → q.World → List Column
  fresh_columns meta zero i w = []
  fresh_columns meta (suc n) i w =
      record {
        is_null = false;
        real_length = 0;
        buffer_length = strlen;
        buffer = replicate (strlen + 1) q.junk;
        name = q.field_name meta i w;
      }
      ∷ fresh_columns meta n (suc i) w

  -- `MysqlResultSet_new`, given the connection's maximum of rows and its fetch size.
  pub new : ℤ → ℤ → q.Stmt → Bool → q.World → Outcome (Unit {0})
  new max_rows rows stmt keep w =
      let count = q.stmt_field_count stmt w in
      let empty : Rows q = record {
        stop = true;
        keep = keep;
        max_rows = max_rows;
        fetch_size = pos 0;
        last_error = 0;
        need_rebind = false;
        current_row = 0;
        column_count = count;
        meta = none;
        stmt = stmt;
        columns = [];
      } in
      let (meta, w1) = q.stmt_result_metadata stmt w in
      let with_columns : Outcome (Unit {0}) = elim meta [
        | none ↦ (ok tt, empty, w1)
        | some m ↦
            let cs = fresh_columns m count 0 w1 in
            let (status, w2) = q.stmt_bind_result stmt cs w1 in
            let R = record empty {
              stop = not (status == 0);
              last_error = status;
              meta = some m;
              columns = cs;
            } in
            if status == 0 then set_fetch_size R rows w2 else (ok tt, R, w2)
      ] in
      if count == 0 then (ok tt, empty, w) else with_columns

  pub free : Rows q → q.World → q.World
  free R w =
      let w1 = q.stmt_free_result R.stmt w in
      let w2 = if R.keep then w1 else q.stmt_close R.stmt w1 in
      elim R.meta [ none ↦ w2 | some m ↦ q.free_meta m w2 ]

  pub get_column_count : Rows q → ℤ
  get_column_count R = pos R.column_count

  pub get_column_name : Rows q → ℤ → Option Text
  get_column_name R index =
      let i = index -ℤ pos 1 in
      if R.column_count == 0 || ltb_ℤ i (pos 0) || ltb_ℤ (pos R.column_count) i
      then none
      else elim i [ pos k ↦ some (column R k).name | negsuc k ↦ none ]

  -- A function that reads the column at an index.
  abbrev at_column : {A : Type 0} → Rows q → ℤ → q.World → (ℕ → Outcome A) → Outcome A
  at_column R index w read = elim (check_index out_of_range index (pos R.column_count)) [
    | err e ↦ (err e, R, w)
    | ok (pos i) ↦ read i
    | ok (negsuc i) ↦ (err (sql_exception out_of_range), R, w)
  ]

  pub get_column_size : Rows q → ℤ → q.World → Outcome ℕ
  get_column_size R index w =
      at_column R index w
        (λ i. (ok (if (column R i).is_null then 0 else (column R i).real_length), R, w))

  pub isnull : Rows q → ℤ → q.World → Outcome Bool
  isnull R index w = at_column R index w (λ i. (ok (column R i).is_null, R, w))

  -- The fetch of `_next`, once the columns are bound.
  fetch : Rows q → q.World → Outcome Bool
  fetch R w =
      let ((status, cs), w') = q.stmt_fetch R.stmt R.columns w in
      let S = record R { last_error = status; columns = cs } in
      if status == 1
      then (err (sql_exception (lit "mysql_stmt_fetch -- " ++ q.stmt_error R.stmt w')), S, w')
      else (
        ok (status == 0 || status == q.data_truncated),
        record S { current_row = suc R.current_row },
        w',
      )

  pub next : Rows q → q.World → Outcome Bool
  unfolding fetch
  next R w =
      let full = ltb_ℤ (pos 0) R.max_rows && not (ltb_ℤ (pos R.current_row) R.max_rows) in
      let (status, w') = q.stmt_bind_result R.stmt R.columns w in
      let B = record R { last_error = status } in
      let message = lit "mysql_stmt_bind_result -- " ++ q.stmt_error R.stmt w' in
      if R.stop
      then (ok false, R, w)
      else if full
      then (ok false, record R { stop = true }, (q.stmt_reset R.stmt w).1)
      else if R.need_rebind
      then if status == 0
        then fetch (record B { need_rebind = false }) w'
        else (err (sql_exception message), B, w')
      else fetch R w

  -- What is done with a column that is not NULL once it has room.
  abbrev with_room :
      {A : Type 0} → Rows q → ℕ → q.World → (Rows q → q.World → Outcome A) → Outcome A
  with_room R i w read =
      let (r, S, w') = ensure_capacity R i w in elim r [ err e ↦ (err e, S, w') | ok u ↦ read S w' ]

  -- The zero is written behind the value.
  abbrev terminate : Rows q → ℕ → Rows q
  terminate R i =
      let c = column R i in put_column R i (record c { buffer = set c.buffer c.real_length 0 })

  pub get_string : Rows q → ℤ → q.World → Outcome (Option Text)
  unfolding ensure_capacity
  get_string R index w = at_column R index w (λ i.
      if (column R i).is_null
      then (ok none, R, w)
      else with_room R i w
          (λ S w'. let T = terminate S i in (ok (some (c_string (column T i).buffer)), T, w')))

  -- The cells and the size.
  pub get_blob : Rows q → ℤ → q.World → Outcome (Option (List ℕ × ℕ))
  unfolding ensure_capacity
  get_blob R index w = at_column R index w (λ i.
      if (column R i).is_null
      then (ok none, R, w)
      else with_room R i w
          (λ S w'. (ok (some ((column S i).buffer, (column S i).real_length)), S, w')))
