-- ===== src/Util/StringBuffer/Marking.antt =====
-- The loop of `_prepare`: its invariant, and what it leaves.
use libzdb.Prelude.{
  ℕ, zero, suc, ◌+◌, ◌-◌, ◌*◌, ◌≤◌, ◌<◌, ◌≡◌, refl, ap, ◌∙◌, sym, true, false, List, [], ◌∷◌, ◌++◌,
  Option, some, arith, Text, drop, length, length-append, length-drop, inl, inr, Bool-cases, leb,
  ◌==◌, append_assoc, get_or-append, dec_lt, subst,
}
use libzdb.Util.StringBuffer.{StringBuffer, questions, put_marker, prepare_loop, at}
use libzdb.Util.StringBuffer.Holding.{Begins}
use libzdb.Util.StringBuffer.Markers.{
  numbered, questions-append, numbered_plain, numbered_none, number, marker-number,
  questions-number, length-number, put_marker-Begins,
}

-- What the loop leaves: a buffer that begins with the numbered statement, with a cell to spare.
abbrev pub Leaves : Text → Option StringBuffer → Type 0
Leaves t r = (Q : StringBuffer) × (c : ℕ) × (slack : List ℕ) × (r ≡ some Q) × Begins Q t (c ∷ slack)

-- The loop's state at cell i: n parameters in all, the next is number j, `before` is done. The slack
-- suffices for two cells for each parameter that is left, less one for the first of all.
pub record Inv (n i j : ℕ) (before todo slack : List ℕ) (S : StringBuffer) : Type 0 where
  pub begins : Begins S (before ++ todo) slack
  pub at_i : i ≡ length before
  pub first : 1 ≤ j
  pub left : n + 1 ≡ j + questions todo
  pub room : 2 * questions todo + 1 ≤ length slack + (2 - j)
  pub spare : 1 ≤ length slack

pub at_front :
    (junk i c : ℕ) (before rest slack : List ℕ) (S : StringBuffer)
    → Begins S (before ++ c ∷ rest) slack
    → i ≡ length before
    → at junk S i ≡ c
at_front junk i c before rest slack S b e =
    let z : length before ≡ length before + 0 = omega arith in
    rw (b.cells, append_assoc before (c ∷ rest) slack, e, z)
      (get_or-append before (c ∷ (rest ++ slack)) junk 0)

pub room_step :
    (k s l j : ℕ)
    → 1 ≤ j
    → l ≤ 2
    → (j < 10 → l ≡ 1)
    → 2 * suc k + 1 ≤ s + (2 - j)
    → (l + 1 ≤ s) × (2 * k + 1 ≤ s - l + (2 - suc j))
room_step k s l j h two single room = elim (dec_lt j 10) [
  | yes p ↦ let e = single p in (omega arith, omega arith)
  | no p ↦ (omega arith, omega arith)
]

module _ (prefix n : ℕ) (few : n ≤ 99) where
  pub finished :
      (i j : ℕ) (before todo slack : List ℕ) (S : StringBuffer)
      → Inv n i j before todo slack S
      → leb j n ≡ false
      → Leaves (before ++ numbered prefix j todo) (some S)
  finished i j before todo [] S v h = absurd (omega (arith, v.spare))
  finished i j before todo (c ∷ slack) S v h =
      let none_left : questions todo ≡ 0 = ground (arith, v.left) in
      (S, c, slack, refl, rw (numbered_none prefix j todo none_left) v.begins)

  pub plain-Inv :
      (i j c : ℕ) (before rest slack : List ℕ) (S : StringBuffer)
      → Inv n i j before (c ∷ rest) slack S
      → c == b'?' ≡ false
      → Inv n (suc i) j (before ++ c ∷ []) rest slack S
  unfolding questions
  plain-Inv i j c before rest slack S v h =
      let same : questions (c ∷ rest) ≡ questions rest = ground arith in
      record {
        begins = rw (append_assoc before (c ∷ []) rest) v.begins;
        at_i = omega (arith, v.at_i, length-append before (c ∷ []));
        first = v.first;
        left = v.left ∙ ap (λ k. j + k) same;
        room = omega (arith, v.room, same);
        spare = v.spare;
      }

  pub marker-Inv :
      (i j c : ℕ) (before rest slack : List ℕ) (S : StringBuffer)
      → Inv n i j before (c ∷ rest) slack S
      → c == b'?' ≡ true
      → leb j n ≡ true
      → Inv n
          (suc i)
          (suc j)
          (before ++ prefix ∷ [])
          (number j ++ rest)
          (drop (length (number j)) slack)
          (put_marker prefix i j S)
  unfolding questions
  marker-Inv i j c before rest slack S v h more =
      let one_less : questions (c ∷ rest) ≡ suc (questions rest) = ground arith in
      let within : j ≤ n = ground arith in
      let no_marks = questions-number j (omega arith) in
      let (two, single, some_digit) = length-number j in
      let same : questions (number j ++ rest) ≡ questions rest =
        omega (arith, questions-append (number j) rest) in
      let shorter = length-drop (length (number j)) slack in
      let (fits, room_left) =
        room_step (questions rest) (length slack) (length (number j)) j v.first two single
          (omega (arith, v.room, one_less)) in
      record {
        begins =
            rw (append_assoc before (prefix ∷ []) (number j ++ rest))
              (put_marker-Begins prefix i j before rest slack c S v.begins v.at_i (omega arith));
        at_i = omega (arith, v.at_i, length-append before (prefix ∷ []));
        first = omega arith;
        left = omega (arith, v.left, one_less, same);
        room = rw (same, shorter) room_left;
        spare = omega arith;
      }

  pub numbered-plain :
      (j c : ℕ) (before rest : List ℕ)
      → c == b'?' ≡ false
      → (before ++ c ∷ []) ++ numbered prefix j rest ≡ before ++ numbered prefix j (c ∷ rest)
  unfolding numbered
  numbered-plain j c before rest h = rw h (append_assoc before (c ∷ []) (numbered prefix j rest))

  pub numbered-marker :
      (j c : ℕ) (before rest : List ℕ)
      → c == b'?' ≡ true
      → j ≤ 99
      → (before ++ prefix ∷ []) ++ numbered prefix (suc j) (number j ++ rest)
        ≡ before ++ numbered prefix j (c ∷ rest)
  numbered-marker j c before rest h few_left =
      append_assoc before (prefix ∷ []) (numbered prefix (suc j) (number j ++ rest))
      ∙ ap (λ t. before ++ prefix ∷ t)
          (numbered_plain prefix (suc j) (number j) rest (questions-number j few_left))
      ∙ ap (◌++◌ before) (sym step)
    where
      step : numbered prefix j (c ∷ rest) ≡ prefix ∷ (number j ++ numbered prefix (suc j) rest)
      step = unfold numbered in (rw (h, marker-number prefix j))

  pub none_left : (j : ℕ) → n + 1 ≡ j + questions [] → leb j n ≡ false
  unfolding questions
  none_left j h = ground arith

  pub fuel_plain :
      (c rounds : ℕ) (rest : List ℕ)
      → length (c ∷ rest) + 2 * questions (c ∷ rest) < suc rounds
      → c == b'?' ≡ false
      → length rest + 2 * questions rest < rounds
  unfolding questions
  fuel_plain c rounds rest h other = ground arith

  pub fuel_marker :
      (c j rounds : ℕ) (rest : List ℕ)
      → length (c ∷ rest) + 2 * questions (c ∷ rest) < suc rounds
      → c == b'?' ≡ true
      → j ≤ 99
      → length (number j ++ rest) + 2 * questions (number j ++ rest) < rounds
  fuel_marker c j rounds rest h found few_left =
      let one_less : questions (c ∷ rest) ≡ suc (questions rest) =
        unfold questions in (ground arith) in
      omega (
        arith,
        length-append (number j) rest,
        questions-append (number j) rest,
        questions-number j few_left,
        (length-number j).0,
      )

  -- The loop numbers what is left of the statement.
  pub prepare_loop-Leaves :
      (junk rounds i j : ℕ) (before todo slack : List ℕ) (S : StringBuffer)
      → Inv n i j before todo slack S
      → length todo + 2 * questions todo < rounds
      → Leaves (before ++ numbered prefix j todo) (prepare_loop junk rounds prefix n i j S)
  unfolding prepare_loop
  prepare_loop-Leaves junk zero i j before todo slack S v fuel = elim fuel [ ]
  prepare_loop-Leaves junk (suc rounds) i j before [] slack S v fuel =
      let over = none_left j v.left in rw over (finished i j before [] slack S v over)
  prepare_loop-Leaves junk (suc rounds) i j before (c ∷ rest) slack S v fuel =
      elim (Bool-cases (leb j n)) [
        | inr over ↦ rw over (finished i j before (c ∷ rest) slack S v over)
        | inl more ↦ elim (Bool-cases (c == b'?')) [
          | inr other ↦
              rw (more, at_front junk i c before rest slack S v.begins v.at_i, other)
                (subst (λ t. Leaves t (prepare_loop junk rounds prefix n (suc i) j S))
                  (numbered-plain j c before rest other)
                  (prepare_loop-Leaves junk rounds (suc i) j (before ++ c ∷ []) rest slack S
                    (plain-Inv i j c before rest slack S v other)
                    (fuel_plain c rounds rest fuel other)))
          | inl found ↦
              rw (more, at_front junk i c before rest slack S v.begins v.at_i, found)
                (subst
                  (λ t.
                    Leaves t
                      (prepare_loop junk rounds prefix n (suc i) (suc j) (put_marker prefix i j S)))
                  (numbered-marker j c before rest found (j_few more))
                  (prepare_loop-Leaves junk rounds (suc i) (suc j) (before ++ prefix ∷ [])
                    (number j ++ rest) (drop (length (number j)) slack) (put_marker prefix i j S)
                    (marker-Inv i j c before rest slack S v found more)
                    (fuel_marker c j rounds rest fuel found (j_few more))))
        ]
      ]
    where
      j_few : leb j n ≡ true → j ≤ 99
      j_few more = ground arith
