-- ===== src/Util/Vector/Refinement.antt =====
-- The vector refines a list: `contents`, its cells in use. Each operation keeps the vector valid and
-- acts on the contents as the list operation of its name.
use libzdb.Prelude.{
  ℕ, suc, ◌-◌, ◌≤◌, ◌<◌, ◌≡◌, refl, ap, sym, ◌∙◌, List, [], ◌∷◌, ◌++◌, arith, ok, take, drop, set,
  replicate, length, length-append, length-take, length-set, length-replicate, ltb, leb, inl, inr,
  Bool-cases, memmove, take_append_le, take-take, take-set_end, take-set-memmove_up, length-memmove,
  take_all, drop_all, length-take_le,
}
use libzdb.Prelude.Int.{pos}
use libzdb.Util.Vector.{
  Machine, IsRounded, Vector, stamp, resize, ensure_capacity, place, insert_at, insert, push,
}

pub record IsValid {ℓ} {A : Type ℓ} (V : Vector A) : Type 0 where
  pub cells : length V.array ≡ V.capacity
  pub fits : V.length ≤ V.capacity
  pub some_room : 1 ≤ V.capacity

abbrev pub contents {ℓ} : {A : Type ℓ} → Vector A → List A
contents V = take V.length V.array

append_at_end {ℓ} :
    {A : Type ℓ} (i : ℕ) (xs : List A) (e : A)
    → length xs ≡ i
    → take i xs ++ e ∷ drop i xs ≡ xs ++ e ∷ []
append_at_end i xs e h = rw (take_all i xs (omega arith), drop_all i xs (omega arith))

module _ {ℓ} {A : Type ℓ} (m : Machine A) (rounded : IsRounded m) where
  -- A full array grows by at least one cell.
  pub lt-golden : (n : ℕ) → 1 ≤ n → n < m.golden n
  lt-golden n h = omega (arith, rounded n)

  -- What `ensure_capacity` and a memmove into the free cell leave: room for one more element.
  record HasRoom (V W : Vector A) : Type ℓ where
    valid : IsValid W
    room : W.length < W.capacity
    same_length : W.length ≡ V.length
    same_contents : contents W ≡ contents V

  length-resize : (a : List A) (n : ℕ) → length (resize m a n) ≡ n
  length-resize a n = omega (
    arith,
    length-append (take n a) (replicate (n - length a) m.junk),
    length-take n a,
    length-replicate (n - length a) m.junk,
  )

  take-resize : (k n : ℕ) (a : List A) → k ≤ n → k ≤ length a → take k (resize m a n) ≡ take k a
  take-resize k n a h l =
      take_append_le k (take n a) _ (omega (arith, length-take n a)) ∙ take-take k n a h

  ensure_capacity-HasRoom : (V : Vector A) → IsValid V → HasRoom V (ensure_capacity m V)
  unfolding ensure_capacity
  ensure_capacity-HasRoom V v = elim (Bool-cases (leb V.capacity V.length)) [
    | inl full ↦
        let grown : V.length < m.golden V.length = lt-golden V.length (ground arith) in
        rw full (record {
          valid = record {
            cells = length-resize V.array (m.golden V.length);
            fits = omega arith;
            some_room = omega arith;
          };
          room = grown;
          same_length = refl;
          same_contents = take-resize V.length _ V.array (omega arith) (omega arith);
        })
    | inr room ↦
        rw room
          (record { valid = v; room = ground arith; same_length = refl; same_contents = refl })
  ]

  room_for_one : (V : Vector A) → IsValid V → HasRoom (stamp V) (ensure_capacity m (stamp V))
  room_for_one V v =
      ensure_capacity-HasRoom (stamp V)
        (record { cells = v.cells; fits = v.fits; some_room = v.some_room })

  -- `Vector_push` on a valid vector leaves a valid one, and appends to the contents, where the
  -- rounding of 1.618 * n is off by little more than a half.
  pub push-contents :
      (e : A) (V : Vector A)
      → IsValid V
      → IsValid (push m e V) × (contents (push m e V) ≡ contents V ++ e ∷ [])
  unfolding push
  push-contents e V v =
      let W = ensure_capacity m (stamp V) in
      let r = room_for_one V v in
      (
        record {
          cells = length-set W.array W.length e ∙ r.valid.cells;
          fits = r.room;
          some_room = r.valid.some_room;
        },
        take-set_end W.length W.array e (rw r.valid.cells r.room)
            ∙ ap (λ t. t ++ e ∷ []) r.same_contents,
      )

  place-contents :
      (i : ℕ) (e : A) (W : Vector A)
      → IsValid W
      → W.length < W.capacity
      → i ≤ W.length
      → IsValid (place i e W)
        × (contents (place i e W) ≡ take i (contents W) ++ e ∷ drop i (contents W))
  unfolding place
  place-contents i e W v room h = elim (Bool-cases (ltb i W.length)) [
    | inl inside ↦
        let k = W.length - i in
        rw inside (
          record {
            cells =
                length-set (memmove (suc i) i k W.array) i e
                ∙ length-memmove (suc i) i k W.array (ground arith) (ground arith)
                ∙ v.cells;
            fits = room;
            some_room = v.some_room;
          },
          take-set-memmove_up i W.length W.array e (ground arith) (rw v.cells room),
        )
    | inr at_end ↦
        let is_end : i ≡ W.length = ground arith in
        rw at_end (
          record { cells = length-set W.array i e ∙ v.cells; fits = room; some_room = v.some_room },
          ap (λ k. take (suc W.length) (set W.array k e)) is_end
              ∙ take-set_end W.length W.array e (rw v.cells room)
              ∙ sym (
                  append_at_end i (contents W) e
                    (length-take_le W.length W.array (ground arith) ∙ sym is_end)),
        )
  ]

  -- `Vector_insert` on a valid vector, at an index up to the length, leaves a valid one with the
  -- element there and the rest shifted, where the rounding of 1.618 * n is off by little more than a
  -- half.
  pub insert-contents :
      (i : ℕ) (e : A) (V : Vector A)
      → IsValid V
      → i ≤ V.length
      → (W : Vector A) × (insert m (pos i) e V ≡ ok W)
        × IsValid W
        × (contents W ≡ take i (contents V) ++ e ∷ drop i (contents V))
  unfolding insert insert_at
  insert-contents i e V v h =
      let r = room_for_one V v in
      let p =
        place-contents i e (ensure_capacity m (stamp V)) r.valid r.room (rw r.same_length h) in
      (
        insert_at m i e V,
        ground arith,
        p.0,
        p.1 ∙ ap (λ t. take i t ++ e ∷ drop i t) r.same_contents,
      )
