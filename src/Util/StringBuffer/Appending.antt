-- ===== src/Util/StringBuffer/Appending.antt =====
-- Appending to a buffer: the loop of `_append` ends in its second round at the latest, and the buffer
-- then holds the text it held with the printed text behind it.
use libzdb.Prelude.{
  ℕ, zero, suc, ◌+◌, ◌-◌, ◌≤◌, ◌<◌, ◌≡◌, refl, ap, ◌∙◌, List, [], ◌∷◌, ◌++◌, Option, some, arith,
  Text, take, drop, replicate, length, if◌then◌else◌, length-append, length-replicate, length-take,
  length-drop, inl, inr, Bool-cases, ltb, lt→ltb, write-append, take_all, append_assoc, ok, err,
  assert_exception,
}
use libzdb.Prelude.Int.{pos, negsuc}
use libzdb.Util.Str.{str_def, lit}
use libzdb.Util.StringBuffer.{
  StringBuffer, strlen_default, printed, grow, print, append_loop, append, assign, clear, ctor, new,
  create,
}
use libzdb.Util.StringBuffer.Holding.{
  NoZero, NoZero-append, Begins, Holds, clear-Holds, ctor-Holds, take-append_ge,
}

printed_fits : (n : ℕ) (t : Text) → length t < n → printed n t ≡ t ++ 0 ∷ []
printed_fits zero t h = elim h [ ]
printed_fits (suc n) t h = ap (λ x. x ++ 0 ∷ []) (take_all n t (omega arith))

length-printed : (n : ℕ) (t : Text) → length (printed n t) ≤ n
length-printed zero t = omega arith
length-printed (suc n) t = omega (arith, length-append (take n t) (0 ∷ []), length-take n t)

length_behind : (x b : List ℕ) → length x ≤ length b → length (x ++ drop (length x) b) ≡ length b
length_behind x b h = omega (arith, length-append x (drop (length x) b), length-drop (length x) b)

regroup :
    (t u slack : List ℕ)
    → t ++ ((u ++ 0 ∷ []) ++ drop (length (u ++ 0 ∷ [])) slack)
      ≡ (t ++ u) ++ 0 ∷ drop (length u + 1) slack
regroup t u slack = rw (length-append u (0 ∷ [])) (simp append_assoc)

-- Growing a buffer leaves what it begins with.
pub grow_keeps :
    (junk : ℕ) (t : Text) (n : ℕ) (S : StringBuffer) (slack : List ℕ)
    → Begins S t slack
    → S.length ≤ n
    → (slack' : List ℕ) × (Begins (grow junk n S) t slack')
unfolding grow
grow_keeps junk t n S slack b h =
    let more = replicate (n - length (t ++ slack)) junk in
    (
      take (n - length t) slack ++ more,
      record {
        cells = rw b.cells (
            ap (λ x. x ++ more) (take-append_ge t slack n (omega arith))
            ∙ append_assoc t (take (n - length t) slack) more);
        used_length = b.used_length;
        length_cells = omega (
          arith,
          length-append (take (n - length t) slack) more,
          length-take (n - length t) slack,
          length-replicate (n - length (t ++ slack)) junk,
          length-append t slack,
        );
      },
    )

pub grow-length : (junk n : ℕ) (S : StringBuffer) → (grow junk n S).length ≡ n
unfolding grow
grow-length junk n S = refl

module _ (junk : ℕ) (t u : Text) where
  -- With room for the text and its zero, printing puts both behind what the buffer holds.
  print_fits :
      (S : StringBuffer) (slack : List ℕ)
      → Begins S t slack
      → S.used + length u < S.length
      → Begins
          (record (print junk u S) { used = S.used + length u })
          (t ++ u)
          (0 ∷ drop (length u + 1) slack)
  unfolding print
  print_fits S slack b room = record {
    cells =
        rw (printed_fits (S.length - S.used) u (omega arith), b.cells, b.used_length)
          (write-append t slack (u ++ 0 ∷ []) ∙ regroup t u slack);
    used_length = omega (arith, b.used_length, length-append t u);
    length_cells = omega (arith, length-append t u, length-drop (length u + 1) slack);
  }

  -- In any case it leaves what the buffer holds and the number of cells.
  print_keeps :
      (S : StringBuffer) (slack : List ℕ)
      → Begins S t slack
      → (slack' : List ℕ) × Begins (print junk u S) t slack'
  unfolding print
  print_keeps S slack b =
      let x = printed (S.length - S.used) u in
      (
        x ++ drop (length x) slack,
        record {
          cells =
              rw (b.cells, b.used_length) (write-append t slack (printed (S.length - length t) u));
          used_length = b.used_length;
          length_cells =
              omega (
                arith,
                length_behind x slack (omega (arith, length-printed (S.length - S.used) u)),
              );
        },
      )

  print-length : (S : StringBuffer) → (print junk u S).length ≡ S.length
  unfolding print
  print-length S = refl

  -- The two rounds of the loop, from a buffer that begins with the text.
  append_loop-Holds :
      (S : StringBuffer) (slack : List ℕ)
      → Begins S t slack
      → NoZero (t ++ u)
      → (Q : StringBuffer) × (append_loop junk 2 u S ≡ some Q) × Holds Q (t ++ u)
  unfolding append_loop
  append_loop-Holds S slack b n = elim (Bool-cases (ltb (S.used + length u) S.length)) [
    | inl fits ↦ (
      record (print junk u S) { used = S.used + length u },
      rw fits,
      record {
        slack = drop (length u + 1) slack;
        begins = print_fits S slack b (ground arith);
        no_zero = n;
      },
    )
    | inr full ↦
        let n' = S.length + (strlen_default + length u) in
        let P = print junk u S in
        let (kept, p) = print_keeps S slack b in
        let (grown, g) = grow_keeps junk t n' P kept p (omega (arith, print-length S)) in
        let R = grow junk n' P in
        let room : R.used + length u < R.length =
          omega (arith, grow-length junk n' P, g.used_length, b.length_cells) in
        (
          record (print junk u R) { used = R.used + length u },
          rw (full, lt→ltb _ _ room),
          record {
            slack = drop (length u + 1) grown;
            begins = print_fits R grown g room;
            no_zero = n;
          },
        )
  ]

-- `StringBuffer_append` and `StringBuffer_vappend` put the printed text, which has no zero in it,
-- behind the text that the buffer holds, and the buffer holds the same text as before where the format
-- is NULL or empty; two rounds of the loop are enough.
pub append-Holds :
    (junk : ℕ) (format : Option Text) (t u : Text) (S : StringBuffer)
    → Holds S t
    → NoZero u
    → (Q : StringBuffer) × (append junk format u S ≡ some Q)
      × Holds Q (if str_def format then t ++ u else t)
unfolding append
append-Holds junk format t u S h n = elim (Bool-cases (str_def format)) [
  | inl given ↦
      rw given (append_loop-Holds junk t u S (0 ∷ h.slack) h.begins (NoZero-append t u h.no_zero n))
  | inr empty ↦ rw empty (S, refl, h)
]

-- `StringBuffer_set` and `StringBuffer_vset` replace the text that the buffer holds by the printed
-- one, which has no zero in it, or by the empty text where the format is NULL or empty.
pub assign-Holds :
    (junk : ℕ) (format : Option Text) (t u : Text) (S : StringBuffer)
    → Holds S t
    → NoZero u
    → (Q : StringBuffer) × (assign junk format u S ≡ some Q)
      × Holds Q (if str_def format then u else [])
unfolding assign
assign-Holds junk format t u S h n = append-Holds junk format [] u (clear S) (clear-Holds S t h) n

-- `StringBuffer_new` makes a buffer that holds its argument.
pub new-Holds :
    (junk : ℕ) (s : Text) → NoZero s → (Q : StringBuffer) × (new junk s ≡ some Q) × Holds Q s
unfolding new
new-Holds junk s n =
    append-Holds junk (some (lit "%s")) [] s (ctor junk strlen_default)
      (ctor-Holds junk strlen_default (omega arith)) n

-- `StringBuffer_create` makes an empty buffer, and throws on a hint of zero or less.
pub create-Holds :
    (junk hint : ℕ)
    → ((Q : StringBuffer) × (create junk (pos (suc hint)) ≡ ok Q) × Holds Q [])
      × (create junk (pos 0) ≡ err assert_exception)
      × (create junk (negsuc hint) ≡ err assert_exception)
unfolding create
create-Holds junk hint =
    ((ctor junk (suc hint), refl, ctor-Holds junk (suc hint) (omega arith)), refl, refl)
