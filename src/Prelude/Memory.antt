-- ===== src/Prelude/Memory.antt =====
-- A block of memory as a list of cells: `memmove` inside one block, and what a prefix of the block
-- sees of it.
use Prim.Native.Nat.{ℕ, zero, suc, ◌+◌, ◌-◌, ◌≤◌, ◌<◌}
use mathlib.Core.Path.{◌≡◌, refl, ap, ◌∙◌}
use mathlib.Core.List.{List, [], ◌∷◌, ◌++◌}
use native.Mathlib.Omega.{arith}
use libzdb.Prelude.Lists.{take, drop, set, get_or, length, length-append, length-take, length-drop}

-- `memmove(a + dst, a + src, n)`.
abbrev pub memmove {ℓ} : {A : Type ℓ} → ℕ → ℕ → ℕ → List A → List A
memmove dst src n a = take dst a ++ (take n (drop src a) ++ drop (dst + n) a)

sub_suc : (n i : ℕ) → suc n - suc i ≡ n - i
sub_suc n i = omega arith

suc_add : (n i : ℕ) → suc n + i ≡ suc (n + i)
suc_add n i = omega arith

module _ {ℓ} {A : Type ℓ} where
  pub take_append_le : (n : ℕ) (xs ys : List A) → n ≤ length xs → take n (xs ++ ys) ≡ take n xs
  take_append_le zero xs ys h = refl
  take_append_le (suc n) [] ys h = absurd (omega arith)
  take_append_le (suc n) (x ∷ xs) ys h = ap (◌∷◌ x) (take_append_le n xs ys (omega arith))

  pub take-take : (m n : ℕ) (xs : List A) → m ≤ n → take m (take n xs) ≡ take m xs
  take-take zero n xs h = refl
  take-take (suc m) zero xs h = absurd (omega arith)
  take-take (suc m) (suc n) [] h = refl
  take-take (suc m) (suc n) (x ∷ xs) h = ap (◌∷◌ x) (take-take m n xs (omega arith))

  -- Writing the cell behind the first n makes it the last of the first n + 1.
  pub take-set_end :
      (n : ℕ) (xs : List A) (e : A)
      → n < length xs
      → take (suc n) (set xs n e) ≡ take n xs ++ e ∷ []
  take-set_end n [] e h = absurd (omega arith)
  take-set_end zero (x ∷ xs) e h = refl
  take-set_end (suc n) (x ∷ xs) e h = ap (◌∷◌ x) (take-set_end n xs e (omega arith))

  pub take-suc :
      (n : ℕ) (xs : List A) (d : A)
      → n < length xs
      → take (suc n) xs ≡ take n xs ++ get_or xs n d ∷ []
  take-suc n [] d h = absurd (omega arith)
  take-suc zero (x ∷ xs) d h = refl
  take-suc (suc n) (x ∷ xs) d h = ap (◌∷◌ x) (take-suc n xs d (omega arith))

  pub take-set : (n i : ℕ) (xs : List A) (e : A) → take n (set xs i e) ≡ set (take n xs) i e
  take-set zero i xs e = refl
  take-set (suc n) i [] e = refl
  take-set (suc n) zero (x ∷ xs) e = refl
  take-set (suc n) (suc i) (x ∷ xs) e = ap (◌∷◌ x) (take-set n i xs e)

  pub get_or-take : (n i : ℕ) (xs : List A) (d : A) → i < n → get_or (take n xs) i d ≡ get_or xs i d
  get_or-take zero i xs d h = absurd (omega arith)
  get_or-take (suc n) i [] d h = refl
  get_or-take (suc n) zero (x ∷ xs) d h = refl
  get_or-take (suc n) (suc i) (x ∷ xs) d h = get_or-take n i xs d (omega arith)

  pub take-take-append :
      (n : ℕ) (xs ys : List A) → n ≤ length xs → take n (take n xs ++ ys) ≡ take n xs
  take-take-append zero xs ys h = refl
  take-take-append (suc n) [] ys h = absurd (omega arith)
  take-take-append (suc n) (x ∷ xs) ys h = ap (◌∷◌ x) (take-take-append n xs ys (omega arith))

  -- Opening a gap at i and writing it, seen on the first n + 1 cells.
  pub take-set-memmove_up :
      (i n : ℕ) (xs : List A) (e : A)
      → i < n
      → n < length xs
      → take (suc n) (set (memmove (suc i) i (n - i) xs) i e)
        ≡ take i (take n xs) ++ e ∷ drop i (take n xs)
  take-set-memmove_up i n [] e h k = absurd (omega arith)
  take-set-memmove_up zero (suc n) (x ∷ xs) e h k =
      let z : suc n - 0 ≡ suc n = omega arith in
      let o : 1 + suc n ≡ suc (suc n) = omega arith in
      rw (z, o) (ap (λ t. e ∷ x ∷ t) (take-take-append n xs _ (omega arith)))
  take-set-memmove_up (suc i) (suc n) (x ∷ xs) e h k = ap (◌∷◌ x) (
      rw (sub_suc n i, suc_add (suc i) (n - i))
        (take-set-memmove_up i n xs e (omega arith) (omega arith)))
  take-set-memmove_up i zero (x ∷ xs) e h k = absurd (omega arith)

  -- Closing the cell at i, seen on the first n cells that are left.
  pub take-memmove_down :
      (i n : ℕ) (xs : List A)
      → i < n
      → n < length xs
      → take n (memmove i (suc i) (n - i) xs)
        ≡ take i (take (suc n) xs) ++ drop (suc i) (take (suc n) xs)
  take-memmove_down i n [] h k = absurd (omega arith)
  take-memmove_down zero (suc n) (x ∷ xs) h k =
      let z : suc n - 0 ≡ suc n = omega arith in rw z (take-take-append (suc n) xs _ (omega arith))
  take-memmove_down (suc i) (suc n) (x ∷ xs) h k =
      ap (◌∷◌ x)
        (rw (sub_suc n i, suc_add i (n - i)) (take-memmove_down i n xs (omega arith) (omega arith)))
  take-memmove_down i zero (x ∷ xs) h k = absurd (omega arith)

  pub length-memmove :
      (dst src n : ℕ) (xs : List A)
      → dst + n ≤ length xs
      → src + n ≤ length xs
      → length (memmove dst src n xs) ≡ length xs
  length-memmove dst src n xs h k =
      let d = drop src xs in
      omega (
        arith,
        length-append (take dst xs) (take n d ++ drop (dst + n) xs),
        length-append (take n d) (drop (dst + n) xs),
        length-take dst xs,
        length-take n d,
        length-drop src xs,
        length-drop (dst + n) xs,
      )

  pub take_all : (n : ℕ) (xs : List A) → length xs ≤ n → take n xs ≡ xs
  take_all zero [] h = refl
  take_all zero (x ∷ xs) h = absurd (omega arith)
  take_all (suc n) [] h = refl
  take_all (suc n) (x ∷ xs) h = ap (◌∷◌ x) (take_all n xs (omega arith))

  pub drop_all : (n : ℕ) (xs : List A) → length xs ≤ n → drop n xs ≡ []
  drop_all zero [] h = refl
  drop_all zero (x ∷ xs) h = absurd (omega arith)
  drop_all (suc n) [] h = refl
  drop_all (suc n) (x ∷ xs) h = drop_all n xs (omega arith)

  pub length-take_le : (n : ℕ) (xs : List A) → n ≤ length xs → length (take n xs) ≡ n
  length-take_le n xs h = omega (arith, length-take n xs)

  pub get_or-drop : (n i : ℕ) (xs : List A) (d : A) → get_or (drop n xs) i d ≡ get_or xs (n + i) d
  get_or-drop zero i xs d = ap (λ k. get_or xs k d) (omega arith)
  get_or-drop (suc n) i [] d = refl
  get_or-drop (suc n) i (x ∷ xs) d = get_or-drop n i xs d ∙ rw (suc_add n i)

  -- The first n cells of which n - i are left from i on: the cell at i, then the rest.
  pub drop-take_step :
      (i n : ℕ) (xs : List A) (d : A)
      → i < n
      → n ≤ length xs
      → drop i (take n xs) ≡ get_or xs i d ∷ drop (suc i) (take n xs)
  drop-take_step i n [] d h k = absurd (omega arith)
  drop-take_step i zero (x ∷ xs) d h k = absurd (omega arith)
  drop-take_step zero (suc n) (x ∷ xs) d h k = refl
  drop-take_step (suc i) (suc n) (x ∷ xs) d h k =
      drop-take_step i n xs d (omega arith) (omega arith)

  -- `memcpy(a + i, x, length x)`.
  abbrev pub write : ℕ → List A → List A → List A
  write i x a = take i a ++ (x ++ drop (i + length x) a)

  pub take-append_left : (xs ys : List A) → take (length xs) (xs ++ ys) ≡ xs
  take-append_left [] ys = refl
  take-append_left (x ∷ xs) ys = ap (◌∷◌ x) (take-append_left xs ys)

  pub drop-append_left : (k : ℕ) (xs ys : List A) → drop (length xs + k) (xs ++ ys) ≡ drop k ys
  drop-append_left k [] ys = ap (λ n. drop n ys) (omega arith)
  drop-append_left k (x ∷ xs) ys = rw (suc_add (length xs) k) (drop-append_left k xs ys)

  pub get_or-append :
      (xs ys : List A) (d : A) (k : ℕ) → get_or (xs ++ ys) (length xs + k) d ≡ get_or ys k d
  get_or-append [] ys d k = ap (λ n. get_or ys n d) (omega arith)
  get_or-append (x ∷ xs) ys d k = rw (suc_add (length xs) k) (get_or-append xs ys d k)

  -- Writing behind a known prefix.
  pub write-append :
      (xs ys x : List A) → write (length xs) x (xs ++ ys) ≡ xs ++ (x ++ drop (length x) ys)
  write-append xs ys x = rw (take-append_left xs ys, drop-append_left (length x) xs ys)

  pub take-append_add : (k : ℕ) (xs ys : List A) → take (length xs + k) (xs ++ ys) ≡ xs ++ take k ys
  take-append_add k [] ys = ap (λ n. take n ys) (omega arith)
  take-append_add k (x ∷ xs) ys = rw (suc_add (length xs) k) (ap (◌∷◌ x) (take-append_add k xs ys))

  pub drop_prefix : (n : ℕ) (xs ys : List A) → length xs ≡ n → drop n (xs ++ ys) ≡ ys
  drop_prefix zero [] ys h = refl
  drop_prefix (suc n) [] ys h = absurd (omega arith)
  drop_prefix zero (x ∷ xs) ys h = absurd (omega arith)
  drop_prefix (suc n) (x ∷ xs) ys h = drop_prefix n xs ys (omega arith)
