-- ===== src/Db/Oracle/Rows.antt =====
-- What src/db/oracle/OracleResultSet.c reads.
pub mod Lob
use libzdb.Prelude.{
  ℕ, zero, suc, ◌+◌, ◌-◌, ◌%◌, ◌^◌, Bool, true, false, ◌&&◌, ◌||◌, not, List, [], ◌∷◌, ◌++◌, Option,
  some, none, Text, Result, ok, err, sql_exception, assert_exception, ◌==◌, ltb, if◌then◌else◌,
  take, set, get_or, replicate, length, write,
}
use libzdb.Prelude.Int.{ℤ, pos, negsuc, ◌+ℤ◌, ◌-ℤ◌, ltb_ℤ}
use libzdb.Util.Str.{lit, to_int}
use libzdb.Util.StringBuffer.{c_string}
use libzdb.Db.Delegate.{check_index}
use libzdb.Db.Oracle.Adapter.{
  Oci, Status, Column, ColumnType, Piece, is_success, is_fine, is_need_data, get_last_error,
}
use libzdb.Db.Oracle.Columns.{Rows, Outcome, column, put_column, resize, raise, debug}

abbrev out_of_range : Text
out_of_range = lit "Column index is out of range"

-- LOB_CHUNK_SIZE
abbrev lob_chunk_size : ℕ
lob_chunk_size = 2000

-- DATE_STR_BUF_SIZE
abbrev date_str_buf_size : ℕ
date_str_buf_size = 255

-- An `int` as an `unsigned long`.
pub to_ulong : ℤ → ℕ
to_ulong (pos n) = n
to_ulong (negsuc n) = 2 ^ 64 - suc n

-- The piece that is asked for after one with these bytes.
abbrev after : Piece → List ℕ → Piece
after piece [] = piece
after piece (b ∷ bytes) = Piece.next_piece

module _ (q : Oci) where
  -- `_toString`
  to_string : Rows q → ℕ → q.World → Bool × Rows q × q.World
  to_string R i w =
      let c = column q R i in
      let cells = replicate (suc date_str_buf_size) q.junk in
      let ((status, filled, length), w') = q.date_to_text R.usr R.err c.date cells w in
      let d = record c { buffer = some filled; length = length } in
      (is_fine status, record (put_column q R i d) { last_error = status }, w')

  pub get_fetch_size : Rows q → ℤ
  get_fetch_size R = R.fetch_size

  pub get_column_count : Rows q → ℤ
  get_column_count R = pos (length R.columns)

  -- `none` is a read before the array, which the source does for an index that is not positive.
  pub get_column_name : Rows q → ℤ → Option (Option Text)
  get_column_name R index =
      if ltb_ℤ (pos (length R.columns)) index
      then some none
      else elim index [ pos (suc i) ↦ some (column q R i).name | _ ↦ none ]

  -- The descriptor of the column is not given back where the size is.
  pub get_column_size : Rows q → ℤ → q.World → ℤ × q.World
  get_column_size R index w =
      let ((got, pard), w1) = q.param_get R.stmt R.err index w in
      let (used, semantics) = q.char_used pard R.err w1 in
      let (status, width) =
        if semantics == 0 then q.data_size pard R.err w1 else q.char_size pard R.err w1 in
      if is_success got
      then if is_success used
        then (if is_success status then pos width else negsuc 0, w1)
        else (negsuc 0, q.free_param pard w1)
      else (negsuc 0, w1)

  abbrev is_done : Rows q → Bool
  is_done R =
      ltb_ℤ R.current_row (pos 0)
      || (ltb 0 R.max_rows && not (ltb_ℤ R.current_row (pos R.max_rows)))

  pub next : Rows q → q.World → Outcome q Bool
  next R w =
      let ((status, cs), w') = q.stmt_fetch R.stmt R.err R.columns w in
      let S = record R { last_error = status; columns = cs } in
      let T = record S { current_row = R.current_row +ℤ pos 1 } in
      let fetched : Outcome q Bool = elim status [
        | Status.no_data ↦ (ok false, S, w')
        | Status.success ↦ (ok true, T, w')
        | Status.success_with_info ↦ (ok true, T, debug q Status.success_with_info R.err w')
        | _ ↦ raise q S w'
      ] in
      if is_done R then (ok false, R, w) else fetched

  -- A function that reads the column at an index.
  abbrev at_column : {A : Type 0} → Rows q → ℤ → q.World → (ℕ → Outcome q A) → Outcome q A
  at_column R index w read = elim (check_index out_of_range index (pos (length R.columns))) [
    | err e ↦ (err e, R, w)
    | ok (pos i) ↦ read i
    | ok (negsuc i) ↦ (err (sql_exception out_of_range), R, w)
  ]

  pub isnull : Rows q → ℤ → q.World → Outcome q Bool
  isnull R index w = at_column R index w (λ i. (ok (column q R i).is_null, R, w))

  -- A zero is written behind the value, if there are cells.
  terminate : Rows q → ℕ → q.World → Outcome q (Option Text)
  terminate R i w =
      let c = column q R i in
      elim c.buffer [
        | none ↦ (ok none, R, w)
        | some cells ↦
            let ended = set cells c.length 0 in
            (ok (some (c_string ended)), put_column q R i (record c { buffer = some ended }), w)
      ]

  pub get_string : Rows q → ℤ → q.World → Outcome q (Option Text)
  unfolding to_string terminate
  get_string R index w = at_column R index w (λ i.
      let (printed, S, w') = to_string R i w in
      if (column q R i).is_null then (ok none, R, w) else elim (column q R i).date [
        | none ↦ terminate R i w
        | some d ↦ if printed then terminate S i w' else raise q S w'
      ])

  -- The loop of `_getBlob` on the cells, of which so many are filled; the number bounds its rounds, and
  -- `none` is that it is too small, or that the client library wrote behind the cells.
  pub read_loop :
      ℕ
      → Rows q
      → Option q.Lob
      → List ℕ
      → ℕ
      → Piece
      → q.World
      → Option ((Status × List ℕ × ℕ) × q.World)
  read_loop zero R lob cells total piece w = none
  read_loop (suc n) R lob cells total piece w =
      let ((status, bytes), w') = q.lob_read R.svc R.err lob lob_chunk_size piece w in
      let more = total + length bytes in
      let filled =
        if length bytes == 0
        then cells
        else resize q (write total bytes cells) (more + lob_chunk_size) in
      let rest = read_loop n R lob filled more (after piece bytes) w' in
      if ltb (length cells) more
      then none
      else if is_need_data status
      then rest
      else some ((status, filled, more), w')

  -- What `_getBlob` does when the loop has ended.
  take_blob : Rows q → ℕ → (Status × List ℕ × ℕ) × q.World → Outcome q (Option (List ℕ × ℤ))
  take_blob R i ((status, cells, total), w) =
      let size = to_int (pos total) in
      let c = column q R i in
      let S = record R { last_error = status } in
      if is_fine status
      then (
        ok (some (cells, size)),
        put_column q S i (record c { buffer = some cells; length = to_ulong size }),
        w,
      )
      else raise q (put_column q S i (record c { buffer = none })) w

  -- The cells and the size.
  pub get_blob : ℕ → Rows q → ℤ → q.World → Option (Outcome q (Option (List ℕ × ℤ)))
  unfolding read_loop take_blob
  get_blob rounds R index w = elim (check_index out_of_range index (pos (length R.columns))) [
    | err e ↦ some (err e, R, w)
    | ok (negsuc i) ↦ some (err (sql_exception out_of_range), R, w)
    | ok (pos i) ↦
        let c = column q R i in
        let cells = replicate lob_chunk_size q.junk in
        let read = read_loop rounds R c.lob_loc cells 0 Piece.first_piece w in
        let result : Option (Outcome q (Option (List ℕ × ℤ))) = elim read [
          | none ↦ none
          | some r ↦ some (take_blob R i r)
        ] in
        if c.is_null then some (ok none, R, w) else result
  ]
