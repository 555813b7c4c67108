-- ===== src/Db/Postgresql/Bytea/Escape.antt =====
-- A value in the escape format is read back.
use libzdb.Prelude.{
  ℕ, zero, suc, ◌+◌, ◌/◌, ◌%◌, ◌<◌, ◌≡◌, refl, ap, ◌∙◌, sym, subst, Bool, false, ◌&&◌, List, [],
  ◌∷◌, ◌++◌, some, arith, Text, ltb, ◌==◌, if◌then◌else◌, length, take, set, AllBytes, inl, inr,
  append_assoc, append-nil, Bool-cases, ==_iff, length-append,
}
use libzdb.Db.Postgresql.Bytea.{Cursor, cell, escape_round, rounds, unescape_bytea}
use libzdb.Db.Postgresql.Bytea.Cells.{
  Reads, cell-drop, terminated, rounds_step, rounds_end, Holds, terminate-Holds,
}
use libzdb.Db.Postgresql.Bytea.Octal.{escaped, Takes, take_plain, take_doubled, take_octal}

-- How the server writes a text of bytes.
abbrev pub escape_text : (ℕ → Bool) → Text → Text
escape_text quoted [] = []
escape_text quoted (c ∷ bs) = escaped quoted c ++ escape_text quoted bs

module _ (quoted : ℕ → Bool) where
  -- A round takes what stands for a byte.
  take_escaped :
      (C : Cursor) (finished : Text) (c x : ℕ) (more : Text)
      → c < 256
      → Reads C finished (escaped quoted c ++ x ∷ more)
      → Takes C finished (escaped quoted c) c (x ∷ more)
  take_escaped C finished c x more byte r = elim (Bool-cases (c == b'\\')) [
    | inl e ↦
        let same : c ≡ b'\\' = (==_iff c b'\\').0 e in
        let shape : escaped quoted c ≡ b'\\' ∷ b'\\' ∷ [] = rw e refl in
        subst (λ t. Takes C finished t c (x ∷ more)) (sym shape)
          (subst (λ v. Takes C finished (b'\\' ∷ b'\\' ∷ []) v (x ∷ more)) (sym same)
            (take_doubled C finished x more
              (subst (λ t. Reads C finished (t ++ x ∷ more)) shape r)))
    | inr e ↦ elim (Bool-cases (quoted c)) [
      | inl q ↦
          let shape : escaped quoted c
              ≡ b'\\' ∷ (c / 64 + b'0') ∷ (c / 8 % 8 + b'0') ∷ (c % 8 + b'0') ∷ [] =
            rw (e, q) refl in
          subst (λ t. Takes C finished t c (x ∷ more)) (sym shape)
            (take_octal C finished c x more byte
              (subst (λ t. Reads C finished (t ++ x ∷ more)) shape r))
      | inr q ↦
          let shape : escaped quoted c ≡ c ∷ [] = rw (e, q) refl in
          subst (λ t. Takes C finished t c (x ∷ more)) (sym shape)
            (take_plain C finished c x more e
              (subst (λ t. Reads C finished (t ++ x ∷ more)) shape r))
    ]
  ]

  escape_rounds :
      (bs : Text) (n len : ℕ) (C : Cursor) (finished : Text)
      → AllBytes bs
      → Reads C finished (escape_text quoted bs ++ 0 ∷ [])
      → len ≡ C.from + length (escape_text quoted bs)
      → len < C.from + n
      → (D : Cursor) × (rounds escape_round n len C ≡ some D)
        × Reads D (finished ++ bs) (0 ∷ [])
        × (D.to ≡ C.to + length bs)
  escape_rounds bs zero len C finished bytes r e fuel = absurd (omega arith)
  escape_rounds [] (suc n) len C finished bytes r e fuel =
      (C, rounds_end escape_round n len C (omega arith), rw (append-nil finished) r, omega arith)
  escape_rounds (c ∷ bs) (suc n) len C finished (byte, bytes) r e fuel =
      let (x, more, shape) = terminated (escape_text quoted bs) in
      let r' =
        subst (λ t. Reads C finished t)
          (append_assoc (escaped quoted c) (escape_text quoted bs) (0 ∷ [])
            ∙ ap (λ t. escaped quoted c ++ t) shape)
          r in
      let (D, round, reads, apart, from, to) = take_escaped C finished c x more byte r' in
      let n_all = length-append (escaped quoted c) (escape_text quoted bs) in
      let (F, loop, reads', to') =
        escape_rounds bs n len D (finished ++ c ∷ []) bytes
          (subst (Reads D (finished ++ c ∷ [])) (sym shape) reads) (omega arith) (omega arith) in
      (
        F,
        rounds_step escape_round n len C D (omega arith) round ∙ loop,
        subst (λ t. Reads F t (0 ∷ [])) (append_assoc finished (c ∷ []) bs) reads',
        omega arith,
      )

  -- The value does not look like one in the hex format.
  escape_text-hex :
      (bs : Text)
      → AllBytes bs
      → (cell (escape_text quoted bs ++ 0 ∷ []) 0 == b'\\'
          && cell (escape_text quoted bs ++ 0 ∷ []) 1 == b'x')
        ≡ false
  escape_text-hex [] bytes = refl
  escape_text-hex (c ∷ bs) (byte, bytes) = elim (Bool-cases (c == b'\\')) [
    | inl e ↦ rw e refl
    | inr e ↦ elim (Bool-cases (quoted c)) [
      | inl q ↦ rw (e, q) (ground arith)
      | inr q ↦ rw (e, q) (rw e refl)
    ]
  ]

unescape_bytea-rounds :
    (s : List ℕ) (len : ℕ) (C : Cursor)
    → (cell s 0 == b'\\' && cell s 1 == b'x') ≡ false
    → rounds escape_round (suc len) len (record { cells = s; to = 0; from = 0 }) ≡ some C
    → unescape_bytea s len ≡ some (if ltb C.to C.from then set C.cells C.to 0 else C.cells, C.to)
unfolding unescape_bytea
unescape_bytea-rounds s len C e loop = ground arith

ended-Holds :
    (bs : Text) (C : Cursor)
    → Reads C bs (0 ∷ [])
    → C.to ≡ length bs
    → Holds bs (if ltb C.to C.from then set C.cells C.to 0 else C.cells)
ended-Holds bs C r size =
    let b = r.behind in
    let finished = subst (λ k. take k C.cells ≡ bs) size r.before in
    elim (Bool-cases (ltb C.to C.from)) [
      | inl lt ↦ rw lt (rw size (terminate-Holds bs C.cells finished))
      | inr ge ↦
          let same : length bs ≡ C.from = ground arith in
          rw ge (finished, ap (cell C.cells) same ∙ cell-drop C.from 0 C.cells [] r.after)
    ]

-- The value of a text of bytes in the escape format, whichever bytes but the backslash the server takes
-- for ones that cannot be printed, is unescaped, within the rounds that its length allows, into the
-- bytes, with their number as the size and a terminating zero behind them.
pub unescape_bytea-escape_text :
    (quoted : ℕ → Bool) (bs : Text)
    → AllBytes bs
    → (s : List ℕ) × (unescape_bytea
          (escape_text quoted bs ++ 0 ∷ [])
          (length (escape_text quoted bs))
        ≡ some (s, length bs))
      × Holds bs s
unescape_bytea-escape_text quoted bs bytes =
    let cells = escape_text quoted bs ++ 0 ∷ [] in
    let len = length (escape_text quoted bs) in
    let (C, loop, reads, to) =
      escape_rounds quoted bs (suc len) len (record { cells = cells; to = 0; from = 0 }) [] bytes
        (record { before = refl; after = refl; behind = omega arith }) (omega arith)
        (omega arith) in
    let size : C.to ≡ length bs = omega arith in
    (
      _,
      unescape_bytea-rounds cells len C (escape_text-hex quoted bs bytes) loop
          ∙ ap (λ k. some (if ltb C.to C.from then set C.cells C.to 0 else C.cells, k)) size,
      ended-Holds bs C reads size,
    )
