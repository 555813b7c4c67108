-- ===== src/Util/Vector/Elements.antt =====
-- The operations that do not grow a vector, on its contents: making it, reading and replacing an
-- element, taking one out, and copying all of them.
use libzdb.Prelude.{
  ℕ, zero, suc, ◌+◌, ◌-◌, ◌≤◌, ◌<◌, ◌≡◌, refl, ap, sym, ◌∙◌, List, [], ◌∷◌, ◌++◌, arith, ◌≢◌, ◌==◌,
  if◌then◌else◌, ok, err, assert_exception, take, drop, set, get_or, replicate, length-take,
  length-set, length-replicate, ltb, inl, inr, Bool-cases, take-take, take-suc, take-set,
  get_or-take, take-memmove_down, length-memmove, drop_all, drop-take_step, append-nil, lt→ltb,
}
use libzdb.Prelude.Int.{pos}
use libzdb.Util.Vector.{
  Machine, Vector, stamp, new, cell, replace, get, remove_at, remove, pop, to_array_from, to_array,
}
use libzdb.Util.Vector.Refinement.{IsValid, contents}

module _ {ℓ} {A : Type ℓ} (m : Machine A) where
  -- A new vector is valid and empty, whatever the capacity that was asked for; a negative one throws.
  pub new-contents :
      (hint : ℕ)
      → (V : Vector A) × (new m (pos hint) ≡ ok V)
        × IsValid V
        × (contents V ≡ [])
        × (hint ≢ 0 → V.capacity ≡ hint)
  unfolding new
  new-contents hint = elim (Bool-cases (hint == 0)) [
    | inl none_given ↦ (
      record { length = 0; capacity = 16; array = replicate 16 m.null; timestamp = 0 },
      rw none_given,
      record { cells = refl; fits = omega arith; some_room = omega arith },
      refl,
      λ h. absurd (h (ground arith)),
    )
    | inr given ↦ (
      record { length = 0; capacity = hint; array = replicate hint m.null; timestamp = 0 },
      rw given,
      record { cells = length-replicate hint m.null; fits = omega arith; some_room = ground arith },
      refl,
      λ _. refl,
    )
  ]

  -- `Vector_pop` takes the last element off a valid vector that is not empty, and leaves a valid one.
  pub pop-contents :
      (V : Vector A)
      → IsValid V
      → 1 ≤ V.length
      → (x : A) × (W : Vector A) × (pop m V ≡ ok (x, W))
        × IsValid W
        × (contents V ≡ contents W ++ x ∷ [])
  unfolding pop
  pop-contents V v h =
      let n = V.length - 1 in
      let e : V.length ≡ suc n = omega arith in
      (
        cell m V n,
        record (stamp V) { length = n },
        ground arith,
        record { cells = v.cells; fits = omega arith; some_room = v.some_room },
        ap (λ k. take k V.array) e ∙ take-suc n V.array m.junk (omega arith),
      )

  take_last :
      (i n : ℕ) (xs : List A)
      → n ≡ suc i
      → take i xs ≡ take i (take n xs) ++ drop (suc i) (take n xs)
  take_last i n xs e = rw (
    take-take i n xs (omega arith),
    drop_all (suc i) (take n xs) (omega (arith, length-take n xs)),
    append-nil,
  )

  remove_at-contents :
      (i : ℕ) (V : Vector A)
      → IsValid V
      → i < V.length
      → IsValid (remove_at m i V)
        × (contents (remove_at m i V) ≡ take i (contents V) ++ drop (suc i) (contents V))
  unfolding remove_at
  remove_at-contents i V v h =
      let n = V.length - 1 in
      let e : suc n ≡ V.length = omega arith in
      elim (Bool-cases (ltb i n)) [
        | inl inside ↦ rw inside (
          record {
            cells =
                length-memmove i (suc i) (n - i) V.array (ground arith) (ground arith) ∙ v.cells;
            fits = omega arith;
            some_room = v.some_room;
          },
          take-memmove_down i n V.array (ground arith) (omega arith)
              ∙ ap (λ k. take i (take k V.array) ++ drop (suc i) (take k V.array)) e,
        )
        | inr last ↦ rw last (
          record { cells = v.cells; fits = omega arith; some_room = v.some_room },
          ap (λ k. take k V.array) (ground arith) ∙ take_last i V.length V.array (ground arith),
        )
      ]

  -- `Vector_remove` on a valid vector, at an index below the length, returns the element there and
  -- closes the gap, and leaves a valid vector.
  pub remove-contents :
      (i : ℕ) (V : Vector A)
      → IsValid V
      → i < V.length
      → (W : Vector A) × (remove m (pos i) V ≡ ok (get_or (contents V) i m.junk, W))
        × IsValid W
        × (contents W ≡ take i (contents V) ++ drop (suc i) (contents V))
  unfolding remove
  remove-contents i V v h =
      let (valid, closed) = remove_at-contents i V v h in
      (
        remove_at m i V,
        rw (get_or-take V.length i V.array m.junk h, lt→ltb i V.length h),
        valid,
        closed,
      )

  -- Out of its range an index throws, and the vector is not touched.
  pub get-contents :
      (i : ℕ) (V : Vector A)
      → get m (pos i) V
        ≡ (if ltb i V.length then ok (get_or (contents V) i m.junk) else err assert_exception)
  unfolding get
  get-contents i V = elim (Bool-cases (ltb i V.length)) [
    | inl inside ↦ rw inside (ap ok (sym (get_or-take V.length i V.array m.junk (ground arith))))
    | inr outside ↦ rw outside
  ]

  pub replace-contents :
      (i : ℕ) (e : A) (V : Vector A)
      → IsValid V
      → i < V.length
      → (W : Vector A) × (replace m (pos i) e V ≡ ok (get_or (contents V) i m.junk, W))
        × IsValid W
        × (contents W ≡ set (contents V) i e)
  unfolding replace
  replace-contents i e V v h = (
    record (stamp V) { array = set V.array i e },
    rw (get_or-take V.length i V.array m.junk h, lt→ltb i V.length h),
    record { cells = length-set V.array i e ∙ v.cells; fits = v.fits; some_room = v.some_room },
    take-set V.length i V.array e,
  )

  to_array_from-contents :
      (n i : ℕ) (V : Vector A)
      → IsValid V
      → i + n ≡ V.length
      → to_array_from m n i V ≡ drop i (contents V) ++ m.null ∷ []
  unfolding to_array_from
  to_array_from-contents zero i V v h =
      rw (drop_all i (contents V) (omega (arith, length-take V.length V.array)))
  to_array_from-contents (suc n) i V v h =
      rw (drop-take_step i V.length V.array m.junk (omega arith) (omega arith))
        (ap (◌∷◌ (cell m V i)) (to_array_from-contents n (suc i) V v (omega arith)))

  -- `Vector_toArray` is the contents and a terminating NULL.
  pub to_array-contents : (V : Vector A) → IsValid V → to_array m V ≡ contents V ++ m.null ∷ []
  unfolding to_array
  to_array-contents V v = to_array_from-contents V.length 0 V v (omega arith)
