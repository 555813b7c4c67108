-- ===== src/Zdbpp/PreparedStatement/Binding.antt =====
-- The order in which values are bound.
use libzdb.Prelude.{
  ℕ, suc, ◌+◌, ◌≡◌, refl, ap, ◌∙◌, sym, false, true, List, [], ◌∷◌, ◌++◌, arith, length, ◌==◌,
  if◌then◌else◌,
}
use libzdb.Prelude.Int.{pos}
use libzdb.Db.Delegate.{System}
use libzdb.Zdbpp.Wrapper.{returned, threw, said, ended}
use libzdb.Zdbpp.PreparedStatement.{
  Platform, Argument, Prepared, Outcome, ◌then◌, bind, bind_from, bind_values, mismatch,
  get_parameter_count, is_count,
}

module _ {s : System} where
  then_assoc :
      {A B D : Type 0} (o : Outcome s A) (f : A → Prepared s → s.World → Outcome s B)
      (g : B → Prepared s → s.World → Outcome s D)
      → ((o then f) then g) ≡ (o then (λ a P w. f a P w then g))
  unfolding ◌then◌
  then_assoc (returned a, P, w) f g = refl
  then_assoc (threw e, P, w) f g = refl
  then_assoc (said t, P, w) f g = refl
  then_assoc (ended e, P, w) f g = refl

  then_same :
      {A B : Type 0} (o : Outcome s A) (f g : A → Prepared s → s.World → Outcome s B)
      → ((a : A) (P : Prepared s) (w : s.World) → f a P w ≡ g a P w)
      → (o then f) ≡ (o then g)
  unfolding ◌then◌
  then_same (returned a, P, w) f g h = h a P w
  then_same (threw e, P, w) f g h = refl
  then_same (said t, P, w) f g h = refl
  then_same (ended e, P, w) f g h = refl

  bind_from-append :
      (m : Platform) (P : Prepared s) (i : ℕ) (xs ys : List (Argument s.Double)) (w : s.World)
      → bind_from m P i (xs ++ ys) w
        ≡ (bind_from m P i xs w then (λ u Q v. bind_from m Q (length xs + i) ys v))
  unfolding bind_from ◌then◌
  bind_from-append m P i [] ys w = ap (λ j. bind_from m P j ys w) (omega arith)
  bind_from-append m P i (x ∷ xs) ys w =
      then_same (bind m P (pos i) x w) _ _ (λ u Q v.
        bind_from-append m Q (suc i) xs ys v
        ∙ ap (λ j. bind_from m Q (suc i) xs v then (λ u' R v'. bind_from m R j ys v'))
            (omega arith))
      ∙ sym (
          then_assoc (bind m P (pos i) x w) (λ u Q v. bind_from m Q (suc i) xs v)
            (λ u R v. bind_from m R (length (x ∷ xs) + i) ys v))

  -- Where a statement has another number of parameters than there are values, an exception is thrown, and
  -- nothing is bound; where it has as many, every value is bound at its place, counted from 1, after those
  -- before it are and before those behind it are, as long as none of them throws, and none after one that
  -- throws.
  pub bind_values-bind :
      (m : Platform) (P : Prepared s) (xs ys : List (Argument s.Double)) (x : Argument s.Double)
      (w : s.World)
      → let all = xs ++ x ∷ ys in
        (is_count (length all) (get_parameter_count P w) ≡ false
          → bind_values m P all w ≡ (said mismatch, P, w))
        × (get_parameter_count P w ≡ pos (length all)
            → bind_values m P all w ≡ (
                bind_from m P 1 xs w then (λ u Q v.
                  bind m Q (pos (length xs + 1)) x v
                  then (λ u' R v'. bind_from m R (suc (length xs + 1)) ys v'))))
  unfolding bind_values bind_from
  bind_values-bind m P xs ys x w =
      let all = xs ++ x ∷ ys in
      let same : (length all == length all) ≡ true = ground arith in
      (
        λ e. rw (e, bind_values) refl,
        λ e. rw (e, same, bind_values) (bind_from-append m P 1 xs (x ∷ ys) w),
      )
