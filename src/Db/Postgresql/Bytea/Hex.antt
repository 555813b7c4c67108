-- ===== src/Db/Postgresql/Bytea/Hex.antt =====
-- A value in the hex format is read back.
use libzdb.Prelude.{
  ℕ, zero, suc, ◌+◌, ◌-◌, ◌*◌, ◌/◌, ◌%◌, ◌<◌, ◌≡◌, refl, ap, ◌∙◌, sym, subst, Bool, true, false,
  ◌&&◌, List, [], ◌∷◌, ◌++◌, Option, some, none, arith, Text, ltb, ◌==◌, if◌then◌else◌, length,
  take, set, AllBytes, holds_under, holds_under_at, append_assoc, ==_iff, append-nil,
}
use libzdb.Util.Ctype.{isxdigit}
use libzdb.Db.Postgresql.Bytea.{Cursor, cell, hex, hex_round, rounds, unescape_bytea}
use libzdb.Db.Postgresql.Bytea.Cells.{
  Reads, write_cell, cell-drop, drop-suc, terminated, rounds_step, rounds_end, Holds,
  terminate-Holds,
}

-- How the server writes a digit, and each byte as two of them.
abbrev pub digit : ℕ → ℕ
digit d = if ltb d 10 then d + b'0' else d - 10 + b'a'

abbrev pub hex_text : Text → Text
hex_text [] = []
hex_text (b ∷ bs) = digit (b / 16) ∷ digit (b % 16) ∷ hex_text bs

length-hex_text : (bs : Text) → length (hex_text bs) ≡ length bs * 2
length-hex_text [] = refl
length-hex_text (b ∷ bs) = let n = length-hex_text bs in omega arith

reads_as : ℕ → Option ℕ → Bool
reads_as d none = false
reads_as d (some v) = v == d

digit_table : holds_under (λ d. isxdigit (digit d) && reads_as d (hex (digit d))) 16 ≡ true
unfolding holds_under isxdigit hex reads_as
digit_table = refl

reads_as-some : (d : ℕ) (o : Option ℕ) → reads_as d o ≡ true → o ≡ some d
unfolding reads_as
reads_as-some d none h = ground arith
reads_as-some d (some v) h = ap some ((==_iff v d).0 h)

hex-digit : (d : ℕ) → d < 16 → (isxdigit (digit d) ≡ true) × (hex (digit d) ≡ some d)
hex-digit d h =
    let both =
      holds_under_at (λ d. isxdigit (digit d) && reads_as d (hex (digit d))) 16 d h digit_table in
    (ground arith, reads_as-some d (hex (digit d)) (ground arith))

hex_round-some :
    (C : Cursor) (high low : ℕ)
    → isxdigit (cell C.cells C.from) ≡ true
    → hex (cell C.cells C.from) ≡ some high
    → hex (cell C.cells (suc C.from)) ≡ some low
    → hex_round C
      ≡ some (record {
        cells = set C.cells C.to (high * 16 + low);
        to = suc C.to;
        from = suc (suc C.from);
      })
unfolding hex_round
hex_round-some C high low x h l = ground arith

-- A round takes two digits.
hex_round-Reads :
    (C : Cursor) (finished : Text) (b x : ℕ) (more : Text)
    → b < 256
    → Reads C finished (digit (b / 16) ∷ digit (b % 16) ∷ x ∷ more)
    → C.to < C.from
    → (D : Cursor) × (hex_round C ≡ some D)
      × Reads D (finished ++ b ∷ []) (x ∷ more)
      × (D.to ≡ suc C.to)
      × (D.from ≡ suc (suc C.from))
hex_round-Reads C finished b x more byte r lt =
    let second = drop-suc C.from _ C.cells _ r.after in
    let (is_digit, high) = hex-digit (b / 16) (omega arith) in
    let (_, low) = hex-digit (b % 16) (omega arith) in
    let first_cell = cell-drop C.from _ C.cells _ r.after in
    let second_cell = cell-drop (suc C.from) _ C.cells _ second in
    let value : b / 16 * 16 + b % 16 ≡ b = omega arith in
    (
      _,
      hex_round-some C (b / 16) (b % 16) (ap isxdigit first_cell ∙ is_digit)
            (ap hex first_cell ∙ high) (ap hex second_cell ∙ low)
          ∙ ap
              (λ v.
                some
                  (record { cells = set C.cells C.to v; to = suc C.to; from = suc (suc C.from) }))
              value,
      write_cell C finished _ more b x (suc (suc C.from)) r
          (drop-suc (suc C.from) _ C.cells _ second) (omega arith),
      refl,
      refl,
    )

hex_rounds :
    (bs : Text) (n len : ℕ) (C : Cursor) (finished : Text)
    → AllBytes bs
    → Reads C finished (hex_text bs ++ 0 ∷ [])
    → C.to < C.from
    → len ≡ C.from + length bs * 2
    → length bs < n
    → (D : Cursor) × (rounds hex_round n len C ≡ some D)
      × Reads D (finished ++ bs) (0 ∷ [])
      × (D.to ≡ C.to + length bs)
      × (D.to < D.from)
hex_rounds [] (suc n) len C finished bytes r lt e fuel =
    (C, rounds_end hex_round n len C (omega arith), rw (append-nil finished) r, omega arith, lt)
hex_rounds bs zero len C finished bytes r lt e fuel = absurd (omega arith)
hex_rounds (b ∷ bs) (suc n) len C finished (byte, bytes) r lt e fuel =
    let (x, more, shape) = terminated (hex_text bs) in
    let r' = subst (λ t. Reads C finished (digit (b / 16) ∷ digit (b % 16) ∷ t)) shape r in
    let (D, round, reads, to, from) = hex_round-Reads C finished b x more byte r' lt in
    let (F, loop, reads', to', apart) =
      hex_rounds bs n len D (finished ++ b ∷ []) bytes
        (subst (Reads D (finished ++ b ∷ [])) (sym shape) reads) (omega arith) (omega arith)
        (omega arith) in
    (
      F,
      rounds_step hex_round n len C D (omega arith) round ∙ loop,
      subst (λ t. Reads F t (0 ∷ [])) (append_assoc finished (b ∷ []) bs) reads',
      omega arith,
      apart,
    )

-- The cells of a value in the hex format: a backslash, an x, and the digits.
abbrev pub hex_value : Text → List ℕ
hex_value bs = b'\\' ∷ b'x' ∷ (hex_text bs ++ 0 ∷ [])

unescape_bytea-rounds :
    (s : List ℕ) (len : ℕ) (C : Cursor)
    → cell s 0 ≡ b'\\'
    → cell s 1 ≡ b'x'
    → rounds hex_round (suc len) len (record { cells = s; to = 0; from = 2 }) ≡ some C
    → C.to < C.from
    → unescape_bytea s len ≡ some (set C.cells C.to 0, C.to)
unfolding unescape_bytea
unescape_bytea-rounds s len C first second e lt = ground arith

-- The value of a text of bytes in the hex format that the server writes is unescaped, within the rounds
-- that its length allows, into the bytes, with their number as the size and a terminating zero behind them.
pub unescape_bytea-hex_value :
    (bs : Text)
    → AllBytes bs
    → (s : List ℕ) × (unescape_bytea (hex_value bs) (2 + length (hex_text bs))
        ≡ some (s, length bs))
      × Holds bs s
unescape_bytea-hex_value bs bytes =
    let n = length-hex_text bs in
    let (C, loop, reads, to, apart) =
      hex_rounds bs (suc (2 + length (hex_text bs))) (2 + length (hex_text bs))
        (record { cells = hex_value bs; to = 0; from = 2 }) [] bytes
        (record { before = refl; after = refl; behind = omega arith }) (omega arith) (omega arith)
        (omega arith) in
    let size : C.to ≡ length bs = omega arith in
    (
      set C.cells (length bs) 0,
      unescape_bytea-rounds (hex_value bs) (2 + length (hex_text bs)) C refl refl loop apart
          ∙ ap (λ k. some (set C.cells k 0, k)) size,
      terminate-Holds bs C.cells (subst (λ k. take k C.cells ≡ bs) size reads.before),
    )
