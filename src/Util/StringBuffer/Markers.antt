-- ===== src/Util/StringBuffer/Markers.antt =====
-- The markers that `_prepare` writes for the question marks, and how it makes room for one.
use libzdb.Prelude.{
  ℕ, suc, ◌+◌, ◌-◌, ◌≤◌, ◌<◌, ◌≡◌, refl, ap, ◌∙◌, sym, List, [], ◌∷◌, ◌++◌, arith, Text, take, drop,
  length, write, memmove, if◌then◌else◌, length-append, ◌/◌, ◌%◌, length-drop, inl, inr, Bool-cases,
  ltb, ◌==◌, write-append, append_assoc, take-append_left, drop-append_left, length-take_le,
  take-append_add, drop_prefix,
}
use libzdb.Util.StringBuffer.{StringBuffer, questions, marker, put_marker}
use libzdb.Util.StringBuffer.Holding.{Begins}

-- The statement with its parameters numbered from j on.
unfoldable pub numbered : ℕ → ℕ → Text → Text
numbered prefix j [] = []
numbered prefix j (c ∷ t) =
    let found = c == b'?' in
    (if found then marker prefix j else c ∷ []) ++ numbered prefix (if found then suc j else j) t

pub questions-append : (s t : Text) → questions (s ++ t) ≡ questions s + questions t
unfolding questions
questions-append [] t = omega arith
questions-append (c ∷ s) t = ground (arith, questions-append s t)

pub numbered_plain :
    (prefix j : ℕ) (s t : Text)
    → questions s ≡ 0
    → numbered prefix j (s ++ t) ≡ s ++ numbered prefix j t
unfolding numbered questions
numbered_plain prefix j [] t h = refl
numbered_plain prefix j (c ∷ s) t h = elim (Bool-cases (c == b'?')) [
  | inl found ↦ absurd (ground arith)
  | inr other ↦ rw other (ap (◌∷◌ c) (numbered_plain prefix j s t (ground arith)))
]

pub numbered_none : (prefix j : ℕ) (t : Text) → questions t ≡ 0 → numbered prefix j t ≡ t
unfolding numbered questions
numbered_none prefix j [] h = refl
numbered_none prefix j (c ∷ t) h = elim (Bool-cases (c == b'?')) [
  | inl found ↦ absurd (ground arith)
  | inr other ↦ rw other (ap (◌∷◌ c) (numbered_none prefix j t (ground arith)))
]

-- The digits of a marker.
unfoldable pub number : ℕ → Text
number j = if ltb j 10 then (j + b'0') ∷ [] else (j / 10 + b'0') ∷ (j % 10 + b'0') ∷ []

pub marker-number : (prefix j : ℕ) → marker prefix j ≡ prefix ∷ number j
unfolding marker number
marker-number prefix j = ground arith

pub questions-number : (j : ℕ) → j ≤ 99 → questions (number j) ≡ 0
unfolding questions number
questions-number j h = ground arith

-- A number takes one cell up to 9, and two from 10 on.
pub length-number :
    (j : ℕ) → (length (number j) ≤ 2) × (j < 10 → length (number j) ≡ 1) × (1 ≤ length (number j))
unfolding number
length-number j = ground arith

module _ (before rest slack x : List ℕ) (c k : ℕ) (lx : length x ≡ suc k) where
  abbrev pub tail : List ℕ
  tail = c ∷ (rest ++ slack)

  pub behind : drop (length before + length x + length rest) (before ++ tail) ≡ drop k slack
  behind =
      let e : length before + length x + length rest ≡ length before + suc (length rest + k) =
        omega arith in
      rw e (drop-append_left (suc (length rest + k)) before tail ∙ drop-append_left k rest slack)

  pub gap_opened :
      memmove (length before + length x) (length before + 1) (length rest) (before ++ tail)
      ≡ before ++ (take (length x) tail ++ (rest ++ drop k slack))
  gap_opened =
      rw
        (
          behind,
          drop-append_left 1 before tail,
          take-append_left rest slack,
          take-append_add (length x) before tail,
        )
        (append_assoc before (take (length x) tail) (rest ++ drop k slack))

  -- The two moves of memory by which a marker x takes the place of the byte c.
  pub open_gap :
      k ≤ length slack
      → write
          (length before)
          x
          (memmove (length before + length x) (length before + 1) (length rest) (before ++ tail))
        ≡ before ++ (x ++ (rest ++ drop k slack))
  open_gap h =
      let short : length x ≤ length tail = omega (arith, length-append rest slack) in
      ap (write (length before) x) gap_opened
      ∙ write-append before (take (length x) tail ++ (rest ++ drop k slack)) x
      ∙ ap (λ y. before ++ (x ++ y))
          (drop_prefix (length x) (take (length x) tail) (rest ++ drop k slack)
            (length-take_le (length x) tail short))

pub regroup : (a b c d : List ℕ) → (a ++ (b ++ c)) ++ d ≡ a ++ (b ++ (c ++ d))
regroup a b c d = simp append_assoc

-- One question mark replaced: the marker stands in its place, and the slack is shorter by the length of
-- the number.
pub put_marker-Begins :
    (prefix i j : ℕ) (before rest slack : List ℕ) (c : ℕ) (S : StringBuffer)
    → Begins S (before ++ c ∷ rest) slack
    → i ≡ length before
    → length (number j) ≤ length slack
    → Begins
        (put_marker prefix i j S)
        (before ++ (prefix ∷ (number j ++ rest)))
        (drop (length (number j)) slack)
unfolding put_marker
put_marker-Begins prefix i j before rest slack c S b at_i h =
    let len = length-append before (c ∷ rest) in
    let total = length-append before (prefix ∷ (number j ++ rest)) in
    let part = length-append (number j) rest in
    let left : S.used - (i + 1) ≡ length rest = omega (arith, b.used_length, len) in
    rw (marker-number prefix j) (record {
      cells =
          rw (left, b.cells, append_assoc before (c ∷ rest) slack, at_i)
            (open_gap before rest slack (prefix ∷ number j) c (length (number j)) refl h
              ∙ sym (regroup before (prefix ∷ number j) rest (drop (length (number j)) slack)));
      used_length = omega (arith, b.used_length, len, total, part);
      length_cells =
          omega (arith, b.length_cells, len, total, part, length-drop (length (number j)) slack);
    })
