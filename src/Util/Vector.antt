-- ===== src/Util/Vector.antt =====
-- src/util/Vector.c: a growing array of pointers. The array is a list of `capacity` cells, of which
-- the first `length` are in use. An index is a C int, so it may be negative.
pub mod Refinement
pub mod Elements
pub mod Search
mod Tests
use libzdb.Prelude.{
  ◌∷◌, memmove, ℕ, zero, suc, ◌+◌, ◌-◌, ◌%◌, ◌*◌, ◌≤◌, ◌^◌, ◌≡◌, Bool, List, [], ◌++◌, Option, some,
  none, ltb, leb, ◌==◌, if◌then◌else◌, Result, ok, err, assert_exception, take, drop, set, get_or,
  replicate, length,
}
use libzdb.Prelude.Int.{ℤ, pos, negsuc}

-- What the code takes from the compiler and libc: `round(1.618 * n)` in floating point, the value
-- of a cell that `realloc` has added and nobody has written, and NULL.
pub record Machine {ℓ} (A : Type ℓ) : Type ℓ where
  pub golden : ℕ → ℕ
  pub junk : A
  pub null : A

-- The product and its rounding are off by little more than a half: n * 1.618 ≤ golden n + 0.501.
abbrev pub IsRounded {ℓ} : {A : Type ℓ} → Machine A → Type 0
IsRounded m = (n : ℕ) → 1618 * n ≤ 1000 * m.golden n + 501

pub record Vector {ℓ} (A : Type ℓ) : Type ℓ where
  pub length : ℕ
  pub capacity : ℕ
  pub array : List A
  pub timestamp : ℕ

abbrev stamp {ℓ} : {A : Type ℓ} → Vector A → Vector A
stamp V = record V { timestamp = (V.timestamp + 1) % 2 ^ 32 }

-- The rest of `Vector_insert`, once there is room: open a gap at i and write it.
place {ℓ} : {A : Type ℓ} → ℕ → A → Vector A → Vector A
place i e W =
    let a = if ltb i W.length then memmove (suc i) i (W.length - i) W.array else W.array in
    record W { array = set a i e; length = suc W.length }

module _ {ℓ} {A : Type ℓ} (m : Machine A) where
  -- RESIZE: the cells that are kept, then cells that hold anything.
  abbrev resize : List A → ℕ → List A
  resize a n = take n a ++ replicate (n - length a) m.junk

  ensure_capacity : Vector A → Vector A
  ensure_capacity V =
      if leb V.capacity V.length
      then record V { capacity = m.golden V.length; array = resize V.array (m.golden V.length) }
      else V

  pub new : ℤ → Result (Vector A)
  new (negsuc n) = err assert_exception
  new (pos hint) =
      let capacity = if hint == 0 then 16 else hint in
      ok (record {
        length = 0;
        capacity = capacity;
        array = replicate capacity m.null;
        timestamp = 0;
      })

  insert_at : ℕ → A → Vector A → Vector A
  insert_at i e V = place i e (ensure_capacity (stamp V))

  pub insert : ℤ → A → Vector A → Result (Vector A)
  insert (negsuc i) e V = err assert_exception
  insert (pos i) e V = if leb i V.length then ok (insert_at i e V) else err assert_exception

  abbrev cell : Vector A → ℕ → A
  cell V i = get_or V.array i m.junk

  -- Returns the element that was replaced.
  pub replace : ℤ → A → Vector A → Result (A × Vector A)
  replace (negsuc i) e V = err assert_exception
  replace (pos i) e V =
      if ltb i V.length
      then ok (cell V i, record (stamp V) { array = set V.array i e })
      else err assert_exception

  pub get : ℤ → Vector A → Result A
  get (negsuc i) V = err assert_exception
  get (pos i) V = if ltb i V.length then ok (cell V i) else err assert_exception

  remove_at : ℕ → Vector A → Vector A
  remove_at i V =
      let n = V.length - 1 in
      let a = if ltb i n then memmove i (suc i) (n - i) V.array else V.array in
      record (stamp V) { length = n; array = a }

  pub remove : ℤ → Vector A → Result (A × Vector A)
  unfolding remove_at
  remove (negsuc i) V = err assert_exception
  remove (pos i) V = if ltb i V.length then ok (cell V i, remove_at i V) else err assert_exception

  pub push : A → Vector A → Vector A
  push e V =
      let W = ensure_capacity (stamp V) in
      record W { array = set W.array W.length e; length = suc W.length }

  pub pop : Vector A → Result (A × Vector A)
  pop V =
      if ltb 0 V.length
      then ok (cell V (V.length - 1), record (stamp V) { length = V.length - 1 })
      else err assert_exception

  -- The loop of `Vector_toArray`, over the elements that are left from index i on.
  to_array_from : ℕ → ℕ → Vector A → List A
  to_array_from zero i V = m.null ∷ []
  to_array_from (suc n) i V = cell V i ∷ to_array_from n (suc i) V

  pub to_array : Vector A → List A
  unfolding to_array_from
  to_array V = to_array_from V.length 0 V

  -- The loop of `Vector_indexOf`. Pointers are compared by `eq`.
  index_from : (A → A → Bool) → ℕ → ℕ → A → Vector A → ℤ
  index_from eq zero i e V = negsuc 0
  index_from eq (suc n) i e V =
      let rest = index_from eq n (suc i) e V in if eq (cell V i) e then pos i else rest

  pub index_of : (A → A → Bool) → A → Vector A → ℤ
  unfolding index_from
  index_of eq e V = index_from eq V.length 0 e V

  -- The loop of `Vector_map`, n rounds at most. The callback is given the vector too, as it may
  -- reach it through a pointer; `none` means that the rounds ran out.
  map_from {κ} :
      {S : Type κ}
      → (A → Vector A × S → Vector A × S)
      → ℕ
      → ℕ
      → Vector A × S
      → Option (Result (Vector A × S))
  map_from apply zero i (V, s) = none
  map_from apply (suc n) i (V, s) =
      let after = apply (cell V i) (V, s) in
      let rest = map_from apply n (suc i) after in
      if ltb i V.length
      then if after.0.timestamp == V.timestamp then rest else some (err assert_exception)
      else some (ok (V, s))

  pub map {κ} :
      {S : Type κ}
      → (A → Vector A × S → Vector A × S)
      → Vector A
      → S
      → Option (Result (Vector A × S))
  unfolding map_from
  map apply V s = map_from apply (suc V.length) 0 (V, s)

pub is_empty {ℓ} : {A : Type ℓ} → Vector A → Bool
is_empty V = V.length == 0

pub size {ℓ} : {A : Type ℓ} → Vector A → ℕ
size V = V.length
