-- ===== src/Db/ResultSet.antt =====
-- src/db/ResultSet.c. A function takes the result set and the world, and returns the new world with
-- its result. The calls that only read return no world.
pub mod ByName
mod Tests
use libzdb.Prelude.{
  ℕ, zero, suc, Bool, true, false, List, [], ◌∷◌, ◌++◌, Option, some, none, Text, Result, ok, err,
  assert_exception, sql_exception, ◌>>=◌, if◌then◌else◌,
}
use libzdb.Prelude.Int.{ℤ, pos, negsuc, pos_part, ltb_ℤ}
use libzdb.Util.Str.{lit, str_def, is_byte_equal, parse_int, parse_llong, parse_double}
use libzdb.Db.Delegate.{System, Call, Tm, Rop, ResultSet}

pub invalid_column : Option Text → Text
invalid_column none = lit "Invalid column name 'null'"
invalid_column (some name) = lit "Invalid column name '" ++ (name ++ lit "'")

-- A value parsed from the string of a column, and a default for NULL.
abbrev convert : {A : Type 0} → A → (Text → Result A) → Option Text → Result A
convert d parse none = ok d
convert d parse (some t) = parse t

-- The blob and its size, which is 0 where there is none.
abbrev sized : Option Text × ℤ → Option Text × ℤ
sized (none, n) = (none, pos 0)
sized (some b, n) = (some b, n)

-- STR_DEF(s) before the parser is called.
abbrev convert_defined : {A : Type 0} → A → (Text → Result A) → Option Text → Result A
convert_defined d parse none = ok d
convert_defined d parse (some []) = ok d
convert_defined d parse (some (c ∷ t)) = parse (c ∷ t)

zero_tm : Tm
zero_tm = record {
  year = pos 0;
  month = pos 0;
  day = pos 0;
  hour = pos 0;
  minute = pos 0;
  second = pos 0;
}

abbrev pub converted : {W A B : Type 0} → (A → Result B) → Result A × W → Result B × W
converted f (r, w) = (r >>= f, w)

module _ {s : System} where
  pub new : s.ResultDelegate → Rop s → ResultSet s
  new D op = record { op = op; delegate = D }

  pub free : ResultSet s → s.World → s.World
  free R w = R.op.free R.delegate w

  pub column_count : ResultSet s → s.World → ℤ
  column_count R w = R.op.get_column_count R.delegate w

  pub column_name : ResultSet s → ℤ → s.World → Option Text
  column_name R i w = R.op.get_column_name R.delegate i w

  pub column_size : ResultSet s → ℤ → Call s ℤ
  column_size R i w = R.op.get_column_size R.delegate i w

  pub set_fetch_size : ResultSet s → ℤ → Call s (Unit {0})
  set_fetch_size R rows w =
      let set : s.World = elim R.op.set_fetch_size [ none ↦ w | some f ↦ f R.delegate rows w ] in
      if ltb_ℤ (pos 0) rows then (ok tt, set) else (err assert_exception, w)

  pub fetch_size : ResultSet s → s.World → ℤ
  fetch_size R w = elim R.op.get_fetch_size [ none ↦ pos 0 | some f ↦ f R.delegate w ]

  -- NULL has no next row.
  pub next : Option (ResultSet s) → Call s Bool
  next none w = (ok false, w)
  next (some R) w = R.op.next R.delegate w

  pub isnull : ResultSet s → ℤ → Call s Bool
  isnull R i w = R.op.isnull R.delegate i w

  pub get_string : ResultSet s → ℤ → Call s (Option Text)
  get_string R i w = R.op.get_string R.delegate i w

  -- `_getIndex`: the loop over the columns that are left from column i on.
  pub index_from : ResultSet s → Option Text → ℕ → ℕ → s.World → Result ℤ
  index_from R name zero i w = err (sql_exception (invalid_column name))
  index_from R name (suc n) i w =
      let rest = index_from R name n (suc i) w in
      if is_byte_equal name (column_name R (pos i) w) then ok (pos i) else rest

  pub get_index : ResultSet s → Option Text → s.World → Result ℤ
  get_index R name w = index_from R name (pos_part (column_count R w)) 1 w

  pub get_int : ResultSet s → ℤ → Call s ℤ
  get_int R i w =
      converted (convert (pos 0) (λ t. parse_int (some t))) (R.op.get_string R.delegate i w)

  pub get_llong : ResultSet s → ℤ → Call s ℤ
  get_llong R i w =
      converted (convert (pos 0) (λ t. parse_llong (some t))) (R.op.get_string R.delegate i w)

  pub get_double : ResultSet s → ℤ → Call s s.Double
  get_double R i w =
      converted (convert s.zero_double (λ t. parse_double s.strtod (some t)))
        (R.op.get_string R.delegate i w)

  pub get_blob : ResultSet s → ℤ → Call s (Option Text × ℤ)
  get_blob R i w = converted (λ b. ok (sized b)) (R.op.get_blob R.delegate i w)

  pub get_timestamp : ResultSet s → ℤ → Call s ℤ
  get_timestamp R i w = elim R.op.get_timestamp [
    | some f ↦ f R.delegate i w
    | none ↦ converted (convert_defined (pos 0) s.to_timestamp) (get_string R i w)
  ]

  pub get_date_time : ResultSet s → ℤ → Call s Tm
  get_date_time R i w = elim R.op.get_date_time [
    | some f ↦ f R.delegate i w
    | none ↦ converted (convert_defined zero_tm s.to_date_time) (get_string R i w)
  ]

  -- The functions that take a column by its name.
  pub by_name : {A : Type 0} → (ResultSet s → ℤ → Call s A) → ResultSet s → Option Text → Call s A
  by_name get R name w = elim (get_index R name w) [ ok i ↦ get R i w | err e ↦ (err e, w) ]

  pub get_string_by_name : ResultSet s → Option Text → Call s (Option Text)
  unfolding by_name
  get_string_by_name = by_name get_string

  pub get_int_by_name : ResultSet s → Option Text → Call s ℤ
  unfolding by_name
  get_int_by_name = by_name get_int

  pub get_llong_by_name : ResultSet s → Option Text → Call s ℤ
  unfolding by_name
  get_llong_by_name = by_name get_llong

  pub get_double_by_name : ResultSet s → Option Text → Call s s.Double
  unfolding by_name
  get_double_by_name = by_name get_double

  pub get_blob_by_name : ResultSet s → Option Text → Call s (Option Text × ℤ)
  unfolding by_name
  get_blob_by_name = by_name get_blob

  pub get_timestamp_by_name : ResultSet s → Option Text → Call s ℤ
  unfolding by_name
  get_timestamp_by_name = by_name get_timestamp

  pub get_date_time_by_name : ResultSet s → Option Text → Call s Tm
  unfolding by_name
  get_date_time_by_name = by_name get_date_time
