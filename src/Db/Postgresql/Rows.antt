-- ===== src/Db/Postgresql/Rows.antt =====
-- src/db/postgresql/PostgresqlResultSet.c, less `_unescape_bytea`, which is Bytea
pub mod Counting
use libzdb.Prelude.{
  ℕ, Bool, true, false, not, ◌&&◌, ◌||◌, List, Option, some, none, Text, Result, ok, err,
  sql_exception, ◌>>=◌, if◌then◌else◌,
}
use libzdb.Prelude.Int.{ℤ, pos, negsuc, ◌-ℤ◌, ltb_ℤ}
use libzdb.Util.Str.{lit}
use libzdb.Util.StringBuffer.{c_string}
use libzdb.Db.Delegate.{check_index}
use libzdb.Db.Postgresql.Adapter.{Libpq}
use libzdb.Db.Postgresql.Bytea.{unescape_bytea}

-- `struct ResultSetDelegate_T`
pub record Rows (q : Libpq) : Type 0 where
  pub max_rows : ℤ
  pub row_count : ℤ
  pub current_row : ℤ
  pub column_count : ℤ
  pub res : q.Res

abbrev out_of_range : Text
out_of_range = lit "Column index is out of range"

module _ (q : Libpq) where
  -- `PostgresqlResultSet_new`, given the connection's maximum of rows
  pub new : ℤ → q.Res → q.World → Rows q
  new max_rows res w = record {
    max_rows = max_rows;
    row_count = q.ntuples res w;
    current_row = negsuc 0;
    column_count = q.nfields res w;
    res = res;
  }

  pub get_column_count : Rows q → ℤ
  get_column_count R = R.column_count

  pub get_column_name : Rows q → ℤ → q.World → Option Text
  get_column_name R index w =
      let i = index -ℤ pos 1 in
      if not (ltb_ℤ (pos 0) R.column_count) || ltb_ℤ i (pos 0) || ltb_ℤ R.column_count i
      then none
      else q.fname R.res i w

  -- A function that reads the column at an index.
  abbrev at_column : {A : Type 0} → Rows q → ℤ → (ℤ → Result A) → Result A
  at_column R index read = check_index out_of_range index R.column_count >>= read

  pub get_column_size : Rows q → ℤ → q.World → Result ℕ
  get_column_size R index w = at_column R index (λ i.
      ok (if q.getisnull R.res R.current_row i w then 0 else q.getlength R.res R.current_row i w))

  -- The rows are counted from -1 on.
  pub next : Rows q → Bool × Rows q
  next R =
      let row = R.current_row -ℤ negsuc 0 in
      let limited = ltb_ℤ R.max_rows (pos 0) || ltb_ℤ (pos 0) R.max_rows in
      let past = not (ltb_ℤ row R.row_count) || (limited && not (ltb_ℤ row R.max_rows)) in
      (not past, record R { current_row = row })

  pub isnull : Rows q → ℤ → q.World → Result Bool
  isnull R index w = at_column R index (λ i. ok (q.getisnull R.res R.current_row i w))

  pub get_string : Rows q → ℤ → q.World → Result (Option Text)
  get_string R index w = at_column R index (λ i. ok (
      if q.getisnull R.res R.current_row i w
      then none
      else some (c_string (q.getvalue R.res R.current_row i w))))

  -- The value and its size, where the column is not NULL, and the world with the value unescaped in
  -- place. `none` is a value on which `_unescape_bytea` reads outside of its table.
  pub get_blob : Rows q → ℤ → q.World → Option (Result (Option (List ℕ × ℕ)) × q.World)
  get_blob R index w =
      let found = check_index out_of_range index R.column_count in
      elim found [
        | err e ↦ some (err e, w)
        | ok i ↦
            let value = q.getvalue R.res R.current_row i w in
            let read : Option (Result (Option (List ℕ × ℕ)) × q.World) =
              elim (unescape_bytea value (q.getlength R.res R.current_row i w)) [
                | none ↦ none
                | some (s, size) ↦
                    some (ok (some (s, size)), q.write_value R.res R.current_row i s w)
              ] in
            if q.getisnull R.res R.current_row i w then some (ok none, w) else read
      ]
