-- ===== src/Util/StringBuffer/Preparing.antt =====
-- `StringBuffer_prepare4postgres` and `StringBuffer_prepare4oracle`.
use libzdb.Prelude.{
  ℕ, suc, ◌+◌, ◌*◌, ◌≤◌, ◌<◌, ◌≡◌, ◌≢◌, refl, ap, false, List, [], ◌∷◌, Option, some, arith, Text,
  length, if◌then◌else◌, inl, inr, Bool-cases, ltb, leb, lt→ltb, ◌==◌, ok, err, Result,
  sql_exception,
}
use libzdb.Util.StringBuffer.{
  StringBuffer, questions, marker, prepare_loop, prepare_counted, prepare, terminate, grow,
  too_many, c_string,
}
use libzdb.Util.StringBuffer.Holding.{
  NoZero, NoZero-append, Begins, Holds, terminate-Holds, c_string-append,
}
use libzdb.Util.StringBuffer.Appending.{grow_keeps, grow-length}
use libzdb.Util.StringBuffer.Markers.{numbered, numbered_none}
use libzdb.Util.StringBuffer.Marking.{prepare_loop-Leaves}

NoZero-number : (prefix j : ℕ) → prefix ≢ 0 → NoZero (marker prefix j)
unfolding marker
NoZero-number prefix j h = ground arith

NoZero-numbered : (prefix j : ℕ) (t : Text) → prefix ≢ 0 → NoZero t → NoZero (numbered prefix j t)
unfolding numbered
NoZero-numbered prefix j [] h n = tt
NoZero-numbered prefix j (c ∷ t) h n = elim (Bool-cases (c == b'?')) [
  | inl found ↦ rw found (
      NoZero-append (marker prefix j) _ (NoZero-number prefix j h)
        (NoZero-numbered prefix (suc j) t h n.1))
  | inr other ↦ rw other (n.0, NoZero-numbered prefix j t h n.1)
]

-- The cells that `_prepare` works in: at least two for each parameter behind the statement.
widened :
    (junk : ℕ) (S : StringBuffer) (t slack : Text) (required : ℕ)
    → Begins S t slack
    → (slack' : List ℕ) × Begins
        (if leb S.length required then grow junk required S else S)
        t
        slack'
      × (required ≤ length t + length slack')
widened junk S t slack required b = elim (Bool-cases (leb S.length required)) [
  | inl short ↦
      let (slack', g) = grow_keeps junk t required S slack b (ground arith) in
      rw short (slack', g, omega (arith, g.length_cells, grow-length junk required S))
  | inr enough ↦ rw enough (slack, b, ground arith)
]

prepare_counted_none :
    (junk prefix n : ℕ) (S : StringBuffer)
    → n ≡ 0
    → prepare_counted junk n prefix S ≡ some (ok (n, S))
unfolding prepare_counted
prepare_counted_none junk prefix n S h = rw h

prepare_counted-some :
    (junk prefix n : ℕ) (S Q : StringBuffer)
    → 1 ≤ n
    → n ≤ 99
    → prepare_loop junk
        (suc (n * 2 + S.used))
        prefix
        n
        0
        1
        (if leb S.length (n * 2 + S.used) then grow junk (n * 2 + S.used) S else S)
      ≡ some Q
    → prepare_counted junk n prefix S ≡ some (ok (n, terminate Q))
unfolding prepare_counted
prepare_counted-some junk prefix n S Q h few e =
    let few' : ltb 99 n ≡ false = ground arith in
    let found : n == 0 ≡ false = ground arith in rw (few', found, e)

-- What `_prepare` leaves: the number of parameters, and a buffer that holds the numbered statement.
abbrev pub Prepares : ℕ → Text → Option (Result (ℕ × StringBuffer)) → Type 0
Prepares prefix t r =
    (Q : StringBuffer) × (r ≡ some (ok (questions t, Q))) × Holds Q (numbered prefix 1 t)

module _ (junk prefix : ℕ) (S : StringBuffer) (t : Text) (h : Holds S t) where
  read_back : questions (c_string S.buffer) ≡ questions t
  read_back = rw h.begins.cells (ap questions (c_string-append t h.slack h.no_zero))

  numbered_some :
      prefix ≢ 0
      → 1 ≤ questions t
      → questions t ≤ 99
      → Prepares prefix t (prepare_counted junk (questions t) prefix S)
  numbered_some sign some_found few =
      let n = questions t in
      let (slack, b, wide) = widened junk S t (0 ∷ h.slack) (n * 2 + S.used) h.begins in
      let (Q, c, slack', e, q) =
        prepare_loop-Leaves prefix n few junk (suc (n * 2 + S.used)) 0 1 [] t slack _
          (record {
            begins = b;
            at_i = refl;
            first = omega arith;
            left = omega arith;
            room = omega (arith, h.begins.used_length);
            spare = omega (arith, h.begins.used_length);
          })
          (omega (arith, h.begins.used_length)) in
      (
        terminate Q,
        prepare_counted-some junk prefix n S Q some_found few e,
        terminate-Holds Q (numbered prefix 1 t) c slack' q
            (NoZero-numbered prefix 1 t sign h.no_zero),
      )

  -- On a buffer that holds a statement with up to 99 parameters, and with a prefix that is not zero,
  -- the parameters are numbered in order: the number of them is returned, and the buffer holds the
  -- statement with each question mark replaced by the marker of its number.
  pub prepare-numbered : prefix ≢ 0 → questions t ≤ 99 → Prepares prefix t (prepare junk prefix S)
  unfolding prepare
  prepare-numbered sign few = rw read_back (elim (Bool-cases (questions t == 0)) [
    | inl none_found ↦
        let zero_found : questions t ≡ 0 = ground arith in
        (
          S,
          prepare_counted_none junk prefix (questions t) S zero_found,
          rw (numbered_none prefix 1 t zero_found) h,
        )
    | inr some_found ↦ numbered_some sign (ground arith) few
  ])

  -- On a buffer that holds a statement with more than 99 parameters it throws.
  pub prepare-too_many :
      99 < questions t → prepare junk prefix S ≡ some (err (sql_exception too_many))
  unfolding prepare prepare_counted
  prepare-too_many many = rw (read_back, lt→ltb 99 (questions t) many)
