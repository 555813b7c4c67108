-- ===== src/Zdbpp/ResultSet.antt =====
-- The class `ResultSet` of src/zdbpp.h. A result set that was moved away from is not used.
use libzdb.Prelude.{zero, suc, Bool, Option, some, none, Text, Result, ok, err}
use libzdb.Prelude.Int.{ℤ, pos, negsuc}
use libzdb.Db.Delegate.{System, ResultSet, Tm}
use libzdb.Db.ResultSet as C
use libzdb.Zdbpp.Wrapper.{Cpp, returned, threw, wrap_return}

-- What a function comes to, and the world.
abbrev pub Outcome : System → Type 0 → Type 0
Outcome s A = Cpp A × s.World

module _ {W : Type 0} where
  -- `except_wrapper(RETURN f)`, and a call without the macro.
  unfoldable pub return_of : {A : Type 0} → Result A × W → Cpp A × W
  unfolding wrap_return
  return_of (r, w) = (wrap_return r, w)

-- A blob without a byte is none.
span_of : Option Text × ℤ → Option (Text × ℤ)
span_of (none, size) = none
span_of (some bytes, pos zero) = none
span_of (some bytes, pos (suc n)) = some (bytes, pos (suc n))
span_of (some bytes, negsuc n) = some (bytes, negsuc n)

span : {W : Type 0} → Result (Option Text × ℤ) × W → Cpp (Option (Text × ℤ)) × W
unfolding span_of
span (ok blob, w) = (returned (span_of blob), w)
span (err e, w) = (threw e, w)

module _ {s : System} where
  pub column_count : ResultSet s → s.World → ℤ
  column_count R w = C.column_count R w

  pub column_name : ResultSet s → ℤ → s.World → Option Text
  column_name R i w = C.column_name R i w

  pub column_size : ResultSet s → ℤ → s.World → Outcome s ℤ
  unfolding return_of
  column_size R i w = return_of (C.column_size R i w)

  pub set_fetch_size : ResultSet s → ℤ → s.World → Outcome s (Unit {0})
  unfolding return_of
  set_fetch_size R rows w = return_of (C.set_fetch_size R rows w)

  pub get_fetch_size : ResultSet s → s.World → ℤ
  get_fetch_size R w = C.fetch_size R w

  pub next : ResultSet s → s.World → Outcome s Bool
  unfolding return_of
  next R w = return_of (C.next (some R) w)

  pub is_null : ResultSet s → ℤ → s.World → Outcome s Bool
  unfolding return_of
  is_null R i w = return_of (C.isnull R i w)

  pub get_string : ResultSet s → ℤ → s.World → Outcome s (Option Text)
  unfolding return_of
  get_string R i w = return_of (C.get_string R i w)

  pub get_string_by_name : ResultSet s → Text → s.World → Outcome s (Option Text)
  unfolding return_of
  get_string_by_name R name w = return_of (C.get_string_by_name R (some name) w)

  pub get_int : ResultSet s → ℤ → s.World → Outcome s ℤ
  unfolding return_of
  get_int R i w = return_of (C.get_int R i w)

  pub get_int_by_name : ResultSet s → Text → s.World → Outcome s ℤ
  unfolding return_of
  get_int_by_name R name w = return_of (C.get_int_by_name R (some name) w)

  pub get_llong : ResultSet s → ℤ → s.World → Outcome s ℤ
  unfolding return_of
  get_llong R i w = return_of (C.get_llong R i w)

  pub get_llong_by_name : ResultSet s → Text → s.World → Outcome s ℤ
  unfolding return_of
  get_llong_by_name R name w = return_of (C.get_llong_by_name R (some name) w)

  pub get_double : ResultSet s → ℤ → s.World → Outcome s s.Double
  unfolding return_of
  get_double R i w = return_of (C.get_double R i w)

  pub get_double_by_name : ResultSet s → Text → s.World → Outcome s s.Double
  unfolding return_of
  get_double_by_name R name w = return_of (C.get_double_by_name R (some name) w)

  pub get_blob : ResultSet s → ℤ → s.World → Outcome s (Option (Text × ℤ))
  unfolding span
  get_blob R i w = span (C.get_blob R i w)

  pub get_blob_by_name : ResultSet s → Text → s.World → Outcome s (Option (Text × ℤ))
  unfolding span
  get_blob_by_name R name w = span (C.get_blob_by_name R (some name) w)

  pub get_timestamp : ResultSet s → ℤ → s.World → Outcome s ℤ
  unfolding return_of
  get_timestamp R i w = return_of (C.get_timestamp R i w)

  pub get_timestamp_by_name : ResultSet s → Text → s.World → Outcome s ℤ
  unfolding return_of
  get_timestamp_by_name R name w = return_of (C.get_timestamp_by_name R (some name) w)

  pub get_date_time : ResultSet s → ℤ → s.World → Outcome s Tm
  unfolding return_of
  get_date_time R i w = return_of (C.get_date_time R i w)

  pub get_date_time_by_name : ResultSet s → Text → s.World → Outcome s Tm
  unfolding return_of
  get_date_time_by_name R name w = return_of (C.get_date_time_by_name R (some name) w)
