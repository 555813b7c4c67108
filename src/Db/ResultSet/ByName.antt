-- ===== src/Db/ResultSet/ByName.antt =====
-- Columns by name: the search of `_getIndex`, and the functions that use it.
use libzdb.Prelude.{
  ℕ, zero, suc, ◌+◌, ◌≤◌, ◌<◌, ◌≡◌, refl, Bool, true, false, Option, arith, inl, inr, Bool-cases,
  Text, Result, ok, err, sql_exception, ◌==◌, ◌⊎◌,
}
use libzdb.Prelude.Int.{ℤ, pos, negsuc, pos_part}
use libzdb.Util.Str.{is_byte_equal}
use libzdb.Db.Delegate.{System, Call, ResultSet}
use libzdb.Db.ResultSet.{
  column_count, column_name, invalid_column, index_from, get_index, by_name, get_string, get_int,
  get_string_by_name, get_int_by_name, get_llong, get_double, get_blob, get_timestamp,
  get_date_time, get_llong_by_name, get_double_by_name, get_blob_by_name, get_timestamp_by_name,
  get_date_time_by_name,
}

module _ {s : System} (R : ResultSet s) (name : Option Text) (w : s.World) where
  -- The column has that name, byte by byte.
  abbrev pub is_named : ℕ → Bool
  is_named i = is_byte_equal name (column_name R (pos i) w)

  -- The columns from i up to n, without n, have other names.
  abbrev pub Unnamed : ℕ → ℕ → Type 0
  Unnamed i n = (j : ℕ) → i ≤ j → j < n → is_named j ≡ false

  -- The first column from i up to n with the name, or the exception that says that there is none.
  abbrev pub Finds : ℕ → ℕ → Result ℤ → Type 0
  Finds i n (ok (pos k)) = (i ≤ k) × (k < n) × (is_named k ≡ true) × Unnamed i k
  Finds i n (ok (negsuc k)) = ⊥
  Finds i n (err e) = (e ≡ sql_exception (invalid_column name)) × Unnamed i n

  Unnamed-extend : (i n : ℕ) → is_named i ≡ false → Unnamed (suc i) n → Unnamed i n
  Unnamed-extend i n here rest j h k = elim (Bool-cases (j == i)) [
    | inl same ↦ let e : j ≡ i = ground arith in rw e here
    | inr later ↦ rest j (ground arith) k
  ]

  Finds-extend : (i n : ℕ) (r : Result ℤ) → is_named i ≡ false → Finds (suc i) n r → Finds i n r
  Finds-extend i n (ok (pos k)) here (a, b, c, d) = (omega arith, b, c, Unnamed-extend i k here d)
  Finds-extend i n (ok (negsuc k)) here h = h
  Finds-extend i n (err e) here (m, d) = (m, Unnamed-extend i n here d)

  index_from-Finds : (n i m : ℕ) → i + n ≡ m → Finds i m (index_from R name n i w)
  unfolding index_from
  index_from-Finds zero i m h = (refl, λ j a b. absurd (omega arith))
  index_from-Finds (suc n) i m h = elim (Bool-cases (is_named i)) [
    | inl here ↦ rw here (omega arith, omega arith, here, λ j a b. absurd (omega arith))
    | inr other ↦ rw other (Finds-extend i m _ other (index_from-Finds n (suc i) m (omega arith)))
  ]

  -- A column is looked up by its exact name: the result is the first of the columns 1 to the column
  -- count that has it, or the exception that names it where none has.
  pub get_index-Finds : Finds 1 (suc (pos_part (column_count R w))) (get_index R name w)
  unfolding get_index
  get_index-Finds = index_from-Finds (pos_part (column_count R w)) 1 _ (omega arith)

  -- What a function by name comes to, given the one by index.
  abbrev pub ByIndex : {A : Type 0} → (ResultSet s → ℤ → Call s A) → Result A × s.World → Type 0
  ByIndex get r =
      ((i : ℤ) × (get_index R name w ≡ ok i) × (r ≡ get R i w))
      ⊎ ((get_index R name w ≡ err (sql_exception (invalid_column name)))
          × (r ≡ (err (sql_exception (invalid_column name)), w)))

  by_index : {A : Type 0} (get : ResultSet s → ℤ → Call s A) → ByIndex get (by_name get R name w)
  unfolding by_name
  by_index get = go (get_index R name w) refl (get_index-Finds)
    where
      go :
          (r : Result ℤ)
          → get_index R name w ≡ r
          → Finds 1 (suc (pos_part (column_count R w))) r
          → ByIndex get (elim r [ ok i ↦ get R i w | err e ↦ (err e, w) ])
      go (ok i) e found = inl (i, e, refl)
      go (err x) e found = inr (cc (e, found.0), cc found.0)

  -- The seven functions by name read the column that the name stands for, or throw and call nothing.
  pub get_by_name-ByIndex :
      ByIndex get_string (get_string_by_name R name w)
      × ByIndex get_int (get_int_by_name R name w)
      × ByIndex get_llong (get_llong_by_name R name w)
      × ByIndex get_double (get_double_by_name R name w)
      × ByIndex get_blob (get_blob_by_name R name w)
      × ByIndex get_timestamp (get_timestamp_by_name R name w)
      × ByIndex get_date_time (get_date_time_by_name R name w)
  unfolding get_string_by_name get_int_by_name get_llong_by_name get_double_by_name get_blob_by_name
      get_timestamp_by_name get_date_time_by_name
  get_by_name-ByIndex = (
    by_index get_string,
    by_index get_int,
    by_index get_llong,
    by_index get_double,
    by_index get_blob,
    by_index get_timestamp,
    by_index get_date_time,
  )
