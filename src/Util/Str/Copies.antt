-- ===== src/Util/Str/Copies.antt =====
-- The copying functions of Str.c.
use libzdb.Prelude.{
  ℕ, zero, suc, ◌≤◌, ◌<◌, ◌≡◌, refl, ap, List, [], ◌∷◌, ◌++◌, some, none, arith, min, ok, Text,
  take, drop, length, take_all, inl, inr, Bool-cases, ltb,
}
use libzdb.Prelude.Int.{pos}
use libzdb.Util.Str.{copy_loop, copy, ndup, vcat, cat}

copy_loop_fits :
    (s : Text) (n : ℕ) (d : List ℕ)
    → min n (length s) < length d
    → copy_loop s n d ≡ some (take n s ++ 0 ∷ drop (suc (min n (length s))) d)
unfolding copy_loop
copy_loop_fits s n [] h = absurd (omega arith)
copy_loop_fits [] zero (c ∷ d) h = refl
copy_loop_fits [] (suc n) (c ∷ d) h = let e : min (suc n) 0 ≡ 0 = omega arith in rw e
copy_loop_fits (x ∷ s) zero (c ∷ d) h = let e : min 0 (suc (length s)) ≡ 0 = omega arith in rw e
copy_loop_fits (x ∷ s) (suc n) (c ∷ d) h =
    let e : min (suc n) (suc (length s)) ≡ suc (min n (length s)) = omega arith in
    rw (copy_loop_fits s n d (omega arith), e)

copy_loop_overflows :
    (s : Text) (n : ℕ) (d : List ℕ) → length d ≤ min n (length s) → copy_loop s n d ≡ none
unfolding copy_loop
copy_loop_overflows s n [] h = refl
copy_loop_overflows [] n (c ∷ d) h = absurd (omega arith)
copy_loop_overflows (x ∷ s) zero (c ∷ d) h = absurd (omega arith)
copy_loop_overflows (x ∷ s) (suc n) (c ∷ d) h = rw (copy_loop_overflows s n d (omega arith))

-- `Str_copy` writes the first n bytes of the source, or all of them if there are fewer, and a zero
-- behind them, and leaves the rest of the destination; this wants one byte more than it copies, and
-- with less it writes past the end.
pub copy-take :
    (d : List ℕ) (s : Text) (n : ℕ)
    → (min (suc n) (length s) < length d
        → copy d (some s) (pos (suc n))
          ≡ some (take (suc n) s ++ 0 ∷ drop (suc (min (suc n) (length s))) d))
      × (length d ≤ min (suc n) (length s) → copy d (some s) (pos (suc n)) ≡ none)
unfolding copy
copy-take d s n = (copy_loop_fits s (suc n) d, copy_loop_overflows s (suc n) d)

-- `Str_ndup` copies the first n bytes, and all of them if there are fewer.
pub ndup-take : (s : Text) (n : ℕ) → ndup (some s) (pos n) ≡ ok (some (take n s))
unfolding ndup
ndup-take s n = elim (Bool-cases (ltb (length s) n)) [
  | inl longer ↦ rw (longer, take_all (length s) s (omega arith), take_all n s (ground arith))
  | inr within ↦ rw within
]

-- The buffer that `Str_vcat` measures out holds all that is printed.
pub vcat-printf {ℓ} :
    {Args : Type ℓ} (printf : Text → Args → Text) (s : Text) (ap' : Args)
    → (cat printf (some s) ap' ≡ some (printf s ap')) × (vcat printf none ap' ≡ none)
unfolding vcat cat
vcat-printf printf s ap' = (ap some (take_all _ (printf s ap') (omega arith)), refl)
