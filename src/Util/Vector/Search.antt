-- ===== src/Util/Vector/Search.antt =====
-- The two loops of Vector.c that look at the elements in turn: `Vector_indexOf` and `Vector_map`.
use libzdb.Prelude.{
  ℕ, zero, suc, ◌+◌, ◌≤◌, ◌<◌, ◌≡◌, refl, Bool, true, false, List, [], ◌∷◌, arith, some, ok, err,
  assert_exception, drop, get_or, length-take, inl, inr, Bool-cases, get_or-take, drop-take_step,
  drop_all, lt→ltb, ◌==◌, ◌≢◌,
}
use libzdb.Prelude.Int.{ℤ, pos, negsuc}
use libzdb.Util.Vector.{Machine, Vector, cell, index_from, index_of, map_from, map}
use libzdb.Util.Vector.Refinement.{IsValid, contents}

module _ {ℓ} {A : Type ℓ} (m : Machine A) where
  -- The cells from i up to n are none of them the element.
  abbrev Misses : (A → A → Bool) → A → Vector A → ℕ → ℕ → Type 0
  Misses eq e V i n = (j : ℕ) → i ≤ j → j < n → eq (get_or (contents V) j m.junk) e ≡ false

  -- The result of a search that starts at i: the first index from there with the element, or -1.
  abbrev pub IsFirst : (A → A → Bool) → A → Vector A → ℕ → ℤ → Type 0
  IsFirst eq e V i (pos k) =
      (i ≤ k) × (k < V.length) × (eq (get_or (contents V) k m.junk) e ≡ true) × Misses eq e V i k
  IsFirst eq e V i (negsuc k) = (k ≡ 0) × Misses eq e V i V.length

  module _ (eq : A → A → Bool) (e : A) (V : Vector A) where
    Misses-extend :
        (i n : ℕ)
        → eq (get_or (contents V) i m.junk) e ≡ false
        → Misses eq e V (suc i) n
        → Misses eq e V i n
    Misses-extend i n here rest j h k = elim (Bool-cases (j == i)) [
      | inl same ↦ let s : j ≡ i = ground arith in rw s here
      | inr later ↦ rest j (ground arith) k
    ]

    IsFirst-extend :
        (i : ℕ) (r : ℤ)
        → eq (get_or (contents V) i m.junk) e ≡ false
        → IsFirst eq e V (suc i) r
        → IsFirst eq e V i r
    IsFirst-extend i (pos k) here (a, b, c, d) = (omega arith, b, c, Misses-extend i k here d)
    IsFirst-extend i (negsuc k) here (z, d) = (z, Misses-extend i V.length here d)

    index_from-IsFirst : (n i : ℕ) → i + n ≡ V.length → IsFirst eq e V i (index_from m eq n i e V)
    unfolding index_from
    index_from-IsFirst zero i h = (refl, λ j a b. absurd (omega arith))
    index_from-IsFirst (suc n) i h =
        let same = get_or-take V.length i V.array m.junk (omega arith) in
        elim (Bool-cases (eq (cell m V i) e)) [
          | inl found ↦
              rw found (omega arith, omega arith, rw same found, λ j a b. absurd (omega arith))
          | inr other ↦
              rw other
                (IsFirst-extend i _ (rw same other) (index_from-IsFirst n (suc i) (omega arith)))
        ]

  -- `Vector_indexOf` is the first index of the element in the contents, and -1 exactly if it is not
  -- there.
  pub index_of-IsFirst :
      (eq : A → A → Bool) (e : A) (V : Vector A) → IsFirst eq e V 0 (index_of m eq e V)
  unfolding index_of
  index_of-IsFirst eq e V = index_from-IsFirst eq e V V.length 0 (omega arith)

  -- The plain fold that a callback amounts to if it leaves the vector alone.
  abbrev pub visit {κ} : {S : Type κ} → (A → S → S) → List A → S → S
  visit f [] s = s
  visit f (x ∷ xs) s = visit f xs (f x s)

  map_from-visit {κ} :
      {S : Type κ} (f : A → S → S) (n i : ℕ) (V : Vector A) (s : S)
      → IsValid V
      → i + n ≡ V.length
      → map_from m (λ x (W, t). (W, f x t)) (suc n) i (V, s)
        ≡ some (ok (V, visit f (drop i (contents V)) s))
  unfolding map_from
  map_from-visit f zero i V s v h =
      rw (drop_all i (contents V) (omega (arith, length-take V.length V.array))) (ground arith)
  map_from-visit f (suc n) i V s v h =
      rw
        (
          drop-take_step i V.length V.array m.junk (omega arith) (omega arith),
          lt→ltb i V.length (omega arith),
        )
        (ground (arith, map_from-visit f n (suc i) V (f (cell m V i) s) v))

  -- On a valid vector, a callback that leaves the vector alone is applied to each element of the
  -- contents in order, and the loop ends.
  pub map-visit {κ} :
      {S : Type κ} (f : A → S → S) (V : Vector A) (s : S)
      → IsValid V
      → map m (λ x (W, t). (W, f x t)) V s ≡ some (ok (V, visit f (contents V) s))
  unfolding map
  map-visit f V s v = map_from-visit f V.length 0 V s v (omega arith)

  -- A callback that stamps the vector is caught at the first element.
  pub map_modified {κ} :
      {S : Type κ} (apply : A → Vector A × S → Vector A × S) (V : Vector A) (s : S)
      → 0 < V.length
      → (apply (cell m V 0) (V, s)).0.timestamp ≢ V.timestamp
      → map m apply V s ≡ some (err assert_exception)
  unfolding map map_from
  map_modified apply V s h changed = ground arith
