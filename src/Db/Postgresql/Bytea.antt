-- ===== src/Db/Postgresql/Bytea.antt =====
-- `_unescape_bytea` of src/db/postgresql/PostgresqlResultSet.c, which works in place: the value is the
-- list of its cells, the last of which is the terminating zero.
pub mod Cells
pub mod Hex
pub mod Octal
pub mod Escape
use libzdb.Prelude.{
  ℕ, zero, suc, ◌+◌, ◌-◌, ◌*◌, Bool, true, false, ◌&&◌, List, [], ◌∷◌, Option, some, none, leb, ltb,
  ◌==◌, if◌then◌else◌, set, get_or,
}
use libzdb.Util.Ctype.{isxdigit}

-- The cells, and the variables `i` and `j`.
pub record Cursor : Type 0 where
  pub cells : List ℕ
  pub to : ℕ
  pub from : ℕ

abbrev pub cell : List ℕ → ℕ → ℕ
cell s k = get_or s k 0

-- The table `hex`; `none` is a read behind its end.
pub hex : ℕ → Option ℕ
hex c =
    if leb 128 c
    then none
    else if leb b'0' c && leb c b'9'
    then some (c - b'0')
    else if leb b'a' c && leb c b'f'
    then some (c - b'a' + 10)
    else if leb b'A' c && leb c b'F'
    then some (c - b'A' + 10)
    else some 0

-- A round of the loop over a value in the hex format. The two digits are below 16, so that the bits of the
-- one and the other are their sum.
pub hex_round : Cursor → Option Cursor
unfolding hex isxdigit
hex_round C =
    if isxdigit (cell C.cells C.from)
    then elim (hex (cell C.cells C.from)) [
      | none ↦ none
      | some high ↦ elim (hex (cell C.cells (suc C.from))) [
        | none ↦ none
        | some low ↦ some record {
          cells = set C.cells C.to (high * 16 + low);
          to = suc C.to;
          from = suc (suc C.from);
        }
      ]
    ]
    else some (record C { from = suc C.from })

abbrev is_octal : ℕ → ℕ → Bool
is_octal most c = leb b'0' c && leb c most

abbrev octal : ℕ → ℕ → ℕ → ℕ
octal a b c = ((a - b'0') * 8 + (b - b'0')) * 8 + (c - b'0')

-- A round of the loop over a value in the escape format.
pub escape_round : Cursor → Option Cursor
escape_round C =
    let c = cell C.cells C.from in
    let s = set C.cells C.to c in
    let next = suc C.from in
    let a = cell s next in
    let b = cell s (suc next) in
    let d = cell s (suc (suc next)) in
    let plain : Cursor = record { cells = s; to = suc C.to; from = next } in
    let skipped : Cursor = record plain { from = suc next } in
    let number : Cursor = record plain {
      cells = set s C.to (octal a b d);
      from = suc (suc (suc next));
    } in
    if c == b'\\'
    then if a == b'\\'
      then some skipped
      else if is_octal b'3' a && is_octal b'7' b && is_octal b'7' d
      then some number
      else some plain
    else some plain

-- A loop up to `len`: `none` is a read outside of the table, or rounds that are too few.
pub rounds : (Cursor → Option Cursor) → ℕ → ℕ → Cursor → Option Cursor
rounds round zero len C = none
rounds round (suc n) len C =
    if ltb C.from len
    then elim (round C) [ none ↦ none | some D ↦ rounds round n len D ]
    else some C

-- The cells and the size. Each round takes a cell or more.
unfoldable pub unescape_bytea : List ℕ → ℕ → Option (List ℕ × ℕ)
unfolding rounds hex_round escape_round
unescape_bytea s len =
    let is_hex = cell s 0 == b'\\' && cell s 1 == b'x' in
    let from = if is_hex then 2 else 0 in
    let round = if is_hex then hex_round else escape_round in
    elim (rounds round (suc len) len (record { cells = s; to = 0; from = from })) [
      | none ↦ none
      | some C ↦ some (if ltb C.to C.from then set C.cells C.to 0 else C.cells, C.to)
    ]
