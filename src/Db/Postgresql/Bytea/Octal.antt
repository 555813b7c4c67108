-- ===== src/Db/Postgresql/Bytea/Octal.antt =====
-- A round of the loop over a value in the escape format.
use libzdb.Prelude.{
  ℕ, suc, ◌+◌, ◌-◌, ◌*◌, ◌/◌, ◌%◌, ◌<◌, ◌≡◌, refl, ap, ◌∙◌, Bool, true, false, ◌&&◌, List, [], ◌∷◌,
  ◌++◌, some, arith, Text, leb, ◌==◌, if◌then◌else◌, length, set,
}
use libzdb.Db.Postgresql.Bytea.{Cursor, cell, escape_round}
use libzdb.Db.Postgresql.Bytea.Cells.{Reads, write_cell, overwrite, cell-drop, drop-suc}

-- How the server writes a byte: a backslash is doubled, and a byte that it takes for one that cannot be
-- printed is a backslash and three octal digits.
abbrev pub escaped : (ℕ → Bool) → ℕ → Text
escaped quoted c =
    if c == b'\\'
    then b'\\' ∷ b'\\' ∷ []
    else if quoted c
    then b'\\' ∷ (c / 64 + b'0') ∷ (c / 8 % 8 + b'0') ∷ (c % 8 + b'0') ∷ []
    else c ∷ []

-- What a round does to the cells that are done and to those that are to come.
abbrev pub Takes : Cursor → Text → Text → ℕ → Text → Type 0
Takes C finished t c rest =
    (D : Cursor) × (escape_round C ≡ some D)
    × Reads D (finished ++ c ∷ []) rest
    × (C.from < D.from)
    × (D.from ≡ C.from + length t)
    × (D.to ≡ suc C.to)

escape_round_plain :
    (C : Cursor)
    → (cell C.cells C.from == b'\\') ≡ false
    → escape_round C
      ≡ some (record {
        cells = set C.cells C.to (cell C.cells C.from);
        to = suc C.to;
        from = suc C.from;
      })
unfolding escape_round
escape_round_plain C e = rw (e, escape_round) refl

pub take_plain :
    (C : Cursor) (finished : Text) (c x : ℕ) (more : Text)
    → (c == b'\\') ≡ false
    → Reads C finished (c ∷ x ∷ more)
    → Takes C finished (c ∷ []) c (x ∷ more)
take_plain C finished c x more e r =
    let b = r.behind in
    let here = cell-drop C.from c C.cells _ r.after in
    (
      _,
      escape_round_plain C (ap (λ v. v == b'\\') here ∙ e)
          ∙ ap (λ v. some (record { cells = set C.cells C.to v; to = suc C.to; from = suc C.from }))
              here,
      write_cell C finished _ more c x (suc C.from) r (drop-suc C.from c C.cells _ r.after)
          (omega arith),
      omega arith,
      omega arith,
      refl,
    )

escape_round_doubled :
    (C : Cursor) (s : List ℕ)
    → cell C.cells C.from ≡ b'\\'
    → set C.cells C.to b'\\' ≡ s
    → cell s (suc C.from) ≡ b'\\'
    → escape_round C ≡ some (record { cells = s; to = suc C.to; from = suc (suc C.from) })
unfolding escape_round
escape_round_doubled C s e f g = rw (e, f, g, escape_round) refl

pub take_doubled :
    (C : Cursor) (finished : Text) (x : ℕ) (more : Text)
    → Reads C finished (b'\\' ∷ b'\\' ∷ x ∷ more)
    → Takes C finished (b'\\' ∷ b'\\' ∷ []) b'\\' (x ∷ more)
take_doubled C finished x more r =
    let b = r.behind in
    let second = drop-suc C.from _ C.cells _ r.after in
    let o = overwrite C finished _ b'\\' (suc C.from) _ r second (omega arith) in
    (
      _,
      escape_round_doubled C _ (cell-drop C.from _ C.cells _ r.after) refl
          (cell-drop (suc C.from) _ _ _ o.after),
      write_cell C finished _ more b'\\' x (suc (suc C.from)) r
          (drop-suc (suc C.from) _ C.cells _ second) (omega arith),
      omega arith,
      omega arith,
      refl,
    )

abbrev octal_cell : ℕ → ℕ → Bool
octal_cell most c = leb b'0' c && leb c most

octal_digits :
    (c : ℕ)
    → c < 256
    → ((c / 64 + b'0' == b'\\') ≡ false)
      × (octal_cell b'3' (c / 64 + b'0') ≡ true)
      × (octal_cell b'7' (c / 8 % 8 + b'0') ≡ true)
      × (octal_cell b'7' (c % 8 + b'0') ≡ true)
octal_digits c h = (ground arith, ground arith, ground arith, ground arith)

octal_value :
    (c : ℕ)
    → c < 256
    → ((c / 64 + b'0' - b'0') * 8 + (c / 8 % 8 + b'0' - b'0')) * 8 + (c % 8 + b'0' - b'0') ≡ c
octal_value c h = omega arith

escape_round_octal :
    (C : Cursor) (s : List ℕ) (x y z : ℕ)
    → cell C.cells C.from ≡ b'\\'
    → set C.cells C.to b'\\' ≡ s
    → cell s (suc C.from) ≡ x
    → cell s (suc (suc C.from)) ≡ y
    → cell s (suc (suc (suc C.from))) ≡ z
    → (x == b'\\') ≡ false
    → octal_cell b'3' x ≡ true
    → octal_cell b'7' y ≡ true
    → octal_cell b'7' z ≡ true
    → escape_round C
      ≡ some (record {
        cells = set s C.to (((x - b'0') * 8 + (y - b'0')) * 8 + (z - b'0'));
        to = suc C.to;
        from = suc (suc (suc (suc C.from)));
      })
unfolding escape_round
escape_round_octal C s x y z e f p q r n hx hy hz =
    rw (e, f, p, q, r, n, hx, hy, hz, escape_round) refl

pub take_octal :
    (C : Cursor) (finished : Text) (c x : ℕ) (more : Text)
    → c < 256
    → Reads C finished (b'\\' ∷ (c / 64 + b'0') ∷ (c / 8 % 8 + b'0') ∷ (c % 8 + b'0') ∷ x ∷ more)
    → Takes C finished
        (b'\\' ∷ (c / 64 + b'0') ∷ (c / 8 % 8 + b'0') ∷ (c % 8 + b'0') ∷ [])
        c
        (x ∷ more)
take_octal C finished c x more byte r =
    let b = r.behind in
    let s = set C.cells C.to b'\\' in
    let second = drop-suc C.from _ C.cells _ r.after in
    let o = overwrite C finished _ b'\\' (suc C.from) _ r second (omega arith) in
    let third = drop-suc (suc C.from) _ s _ o.after in
    let fourth = drop-suc (suc (suc C.from)) _ s _ third in
    let (n, hx, hy, hz) = octal_digits c byte in
    (
      _,
      escape_round_octal C s _ _ _ (cell-drop C.from _ C.cells _ r.after) refl
            (cell-drop (suc C.from) _ s _ o.after) (cell-drop (suc (suc C.from)) _ s _ third)
            (cell-drop (suc (suc (suc C.from))) _ s _ fourth) n hx hy hz
          ∙ ap
              (λ v. some (record {
                cells = set s C.to v;
                to = suc C.to;
                from = suc (suc (suc (suc C.from)));
              }))
              (octal_value c byte),
      write_cell (record { cells = s; to = C.to; from = suc C.from }) finished _ more c x
          (suc (suc (suc (suc C.from)))) o (drop-suc (suc (suc (suc C.from))) _ s _ fourth)
          (omega arith),
      omega arith,
      omega arith,
      refl,
    )
