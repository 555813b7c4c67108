-- ===== src/Zdbpp/PreparedStatement.antt =====
-- The class `PreparedStatement` of src/zdbpp.h. One that was moved away from is not used.
pub mod Binding
use libzdb.Prelude.{
  ℕ, suc, ◌-◌, ◌%◌, ◌^◌, Bool, true, false, List, [], ◌∷◌, Option, some, none, Text, Result, ok,
  err, Exception, ◌==◌, leb, if◌then◌else◌, length,
}
use libzdb.Prelude.Int.{ℤ, pos, negsuc}
use libzdb.Util.Str.{lit, to_int}
use libzdb.Db.Delegate.{System, Statement, ResultSet}
use libzdb.Db.PreparedStatement as C
use libzdb.Zdbpp.Wrapper.{Cpp, returned, threw, said, ended, wrap, wrap_return}

-- The integral types.
pub data Integral : Type 0 where
  bool char short unsigned_short int unsigned long unsigned_long long_long unsigned_long_long :
      Integral

-- What the compiler says of them: which one `time_t` is, and how many bytes they have.
pub record Platform : Type 0 where
  pub is_time : Integral → Bool
  pub size_of : Integral → ℕ

-- A value to bind, by its type.
pub data Argument (Double : Type 0) : Type 0 where
  null_pointer : Argument Double
  stringable blobable : Text → Argument Double
  floating : Double → Argument Double
  integral : Integral → ℤ → Argument Double

-- `store_` holds views of the texts and the bytes, by the index.
pub record Prepared (s : System) : Type 0 where
  pub t : Statement s
  pub store : List (ℤ × Text)

abbrev pub Outcome : System → Type 0 → Type 0
Outcome s A = Cpp A × Prepared s × s.World

-- `store_[parameterIndex] = view`, where the last of an index counts.
abbrev put_view : {s : System} → Prepared s → ℤ → Text → Prepared s
put_view P i view = record P { store = (i, view) ∷ P.store }

abbrev pub is_count : ℕ → ℤ → Bool
is_count n (pos k) = n == k
is_count n (negsuc k) = false

-- A value as a `long long`.
to_llong : ℤ → ℤ
to_llong (pos n) = let k = n % 2 ^ 64 in if leb (2 ^ 63) k then negsuc (2 ^ 64 - suc k) else pos k
to_llong (negsuc n) =
    let k = 2 ^ 64 - suc (n % 2 ^ 64) in if leb (2 ^ 63) k then negsuc (2 ^ 64 - suc k) else pos k

pub mismatch : Text
mismatch = lit "Number of values doesn't match placeholders in statement"

module _ {s : System} where
  unfoldable pub wrapped : {A : Type 0} → Prepared s → Result A × s.World → Outcome s A
  unfolding wrap
  wrapped P (r, w) = (wrap r, P, w)

  set_null : Prepared s → ℤ → s.World → Outcome s (Unit {0})
  unfolding wrapped
  set_null P i w = wrapped P (C.set_null P.t i w)

  pub bind : Platform → Prepared s → ℤ → Argument s.Double → s.World → Outcome s (Unit {0})
  unfolding wrapped set_null to_llong
  bind m P i Argument.null_pointer w = set_null P i w
  bind m P i (Argument.stringable t) w =
      let Q = put_view P i t in wrapped Q (C.set_sstring Q.t i (some t) (to_int (pos (length t))) w)
  bind m P i (Argument.floating x) w = wrapped P (C.set_double P.t i x w)
  bind m P i (Argument.integral type x) w =
      if m.is_time type
      then wrapped P (C.set_timestamp P.t i x w)
      else if leb (m.size_of type) 4
      then wrapped P (C.set_int P.t i (to_int x) w)
      else wrapped P (C.set_llong P.t i (to_llong x) w)
  bind m P i (Argument.blobable []) w = set_null P i w
  bind m P i (Argument.blobable (b ∷ bytes)) w =
      let Q = put_view P i (b ∷ bytes) in
      wrapped Q (C.set_blob Q.t i (some (b ∷ bytes)) (to_int (pos (length (b ∷ bytes)))) w)

  infixl 5 ◌then◌
  -- What follows a step, unless it throws.
  unfoldable pub ◌then◌ :
      {A B : Type 0} → Outcome s A → (A → Prepared s → s.World → Outcome s B) → Outcome s B
  (returned a, P, w) then rest = rest a P w
  (threw e, P, w) then rest = (threw e, P, w)
  (said t, P, w) then rest = (said t, P, w)
  (ended e, P, w) then rest = (ended e, P, w)

  -- `bindValuesHelper`, and the fold of `Connection::bindValues`, from an index on.
  pub bind_from :
      Platform → Prepared s → ℕ → List (Argument s.Double) → s.World → Outcome s (Unit {0})
  unfolding bind ◌then◌
  bind_from m P i [] w = (returned tt, P, w)
  bind_from m P i (x ∷ xs) w = bind m P (pos i) x w then (λ u Q v. bind_from m Q (suc i) xs v)

  pub get_parameter_count : Prepared s → s.World → ℤ
  get_parameter_count P w = C.parameter_count P.t w

  pub bind_values :
      Platform → Prepared s → List (Argument s.Double) → s.World → Outcome s (Unit {0})
  unfolding bind_from mismatch
  bind_values m P xs w =
      if is_count (length xs) (get_parameter_count P w)
      then bind_from m P 1 xs w
      else (said mismatch, P, w)

  pub execute : Prepared s → s.World → Outcome s (Unit {0})
  unfolding wrapped ◌then◌
  execute P w =
      let (r, t, w') = C.execute P.t w in
      wrapped (record P { t = t }) (r, w') then (λ u Q v. (returned tt, record Q { store = [] }, v))

  pub execute_query : Prepared s → s.World → Outcome s (ResultSet s)
  unfolding wrapped ◌then◌
  execute_query P w =
      let (r, t, w') = C.execute_query P.t w in
      wrapped (record P { t = t }) (r, w') then (λ R Q v. (returned R, record Q { store = [] }, v))

  pub rows_changed : Prepared s → s.World → Cpp ℤ
  unfolding wrap_return
  rows_changed P w = wrap_return (C.rows_changed P.t w)
