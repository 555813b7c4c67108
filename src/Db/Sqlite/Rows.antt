-- ===== src/Db/Sqlite/Rows.antt =====
-- src/db/sqlite/SQLiteResultSet.c
use libzdb.Prelude.{
  ℕ, ◌+◌, Bool, true, false, not, ◌&&◌, ◌||◌, ◌++◌, Option, some, none, Text, Result, ok, err,
  sql_exception, ◌>>=◌, ◌==◌, if◌then◌else◌,
}
use libzdb.Prelude.Int.{ℤ, pos, negsuc, ◌-ℤ◌, ltb_ℤ}
use libzdb.Util.Str.{lit}
use libzdb.Db.Delegate.{Tm, check_index}
use libzdb.Db.Sqlite.Adapter.{Sqlite, step}

-- `struct ResultSetDelegate_T`, less the handle of the database, which the statement has.
pub record Rows (q : Sqlite) : Type 0 where
  pub keep : Bool
  pub max_rows : ℤ
  pub last_error : ℕ
  pub current_row : ℕ
  pub column_count : ℤ
  pub stmt : q.Stmt

abbrev out_of_range : Text
out_of_range = lit "Column index is out of range"

abbrev plus_1900 : ℤ → ℤ
plus_1900 year = year -ℤ negsuc 1899

module _ (q : Sqlite) where
  -- `SQLiteResultSet_new`, given the connection's maximum of rows
  pub new : ℤ → q.Stmt → Bool → q.World → Rows q
  new max_rows stmt keep w = record {
    keep = keep;
    max_rows = max_rows;
    last_error = 0;
    current_row = 0;
    column_count = q.sqlite3_column_count stmt w;
    stmt = stmt;
  }

  pub free : Rows q → q.World → q.World
  free R w = if R.keep then (q.sqlite3_reset R.stmt w).1 else q.sqlite3_finalize R.stmt w

  pub get_column_name : Rows q → ℤ → q.World → Option Text
  get_column_name R index w =
      let i = index -ℤ pos 1 in
      if not (ltb_ℤ (pos 0) R.column_count) || ltb_ℤ i (pos 0) || ltb_ℤ R.column_count i
      then none
      else q.sqlite3_column_name R.stmt i w

  -- A function that reads the column at an index.
  abbrev at_column : {A : Type 0} → Rows q → ℤ → (ℤ → Result A) → Result A
  at_column R index read = check_index out_of_range index R.column_count >>= read

  pub get_column_size : Rows q → ℤ → q.World → Result ℤ
  get_column_size R index w = at_column R index (λ i. ok (q.sqlite3_column_bytes R.stmt i w))

  -- The rows are counted only where there is a maximum.
  pub next : Rows q → q.World → Result Bool × Rows q × q.World
  next R w =
      let limited = not (ltb_ℤ R.max_rows (pos 1) && ltb_ℤ (negsuc 0) R.max_rows) in
      let over = not (ltb_ℤ (pos R.current_row) R.max_rows) in
      let C = if limited then record R { current_row = R.current_row + 1 } else R in
      let (status, w') = step q R.stmt w in
      let S = record C { last_error = status } in
      if limited && over
      then (ok false, C, w)
      else if status == q.status_row
      then (ok true, S, w')
      else if status == q.status_done
      then (ok false, S, w')
      else (err (sql_exception (lit "sqlite3_step -- " ++ q.sqlite3_errstr status)), S, w')

  pub isnull : Rows q → ℤ → q.World → Result Bool
  isnull R index w = at_column R index (λ i. ok (q.sqlite3_column_type R.stmt i w == q.type_null))

  pub get_string : Rows q → ℤ → q.World → Result (Option Text)
  get_string R index w = at_column R index (λ i. ok (q.sqlite3_column_text R.stmt i w))

  pub get_blob : Rows q → ℤ → q.World → Result (Option Text × ℤ)
  get_blob R index w =
      at_column R index
        (λ i. ok (q.sqlite3_column_blob R.stmt i w, q.sqlite3_column_bytes R.stmt i w))

  pub get_timestamp : Rows q → ℤ → q.World → Result ℤ
  get_timestamp R index w = at_column R index (λ i.
      if q.sqlite3_column_type R.stmt i w == q.type_integer
      then ok (q.sqlite3_column_int64 R.stmt i w)
      else q.to_timestamp (q.sqlite3_column_text R.stmt i w))

  -- `gmtime_r` leaves the time as it was where it fails.
  abbrev broken_down : Tm → ℤ → Tm
  broken_down tm utc = elim (q.gmtime utc) [
    | none ↦ tm
    | some t ↦ record t { year = plus_1900 t.year }
  ]

  pub get_date_time : Rows q → ℤ → Tm → q.World → Result Tm
  get_date_time R index tm w = at_column R index (λ i.
      if q.sqlite3_column_type R.stmt i w == q.type_integer
      then ok (broken_down tm (q.sqlite3_column_int64 R.stmt i w))
      else q.to_date_time (q.sqlite3_column_text R.stmt i w) tm)
