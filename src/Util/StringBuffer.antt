-- ===== src/Util/StringBuffer.antt =====
-- src/util/StringBuffer.c. The buffer is a list of `length` cells of which `used` hold the text and the
-- next one its terminating zero. What `vsnprintf` prints for a format and its arguments is a parameter,
-- so is the value of a cell that nobody has written.
pub mod Holding
pub mod Appending
pub mod Markers
pub mod Marking
pub mod Preparing
mod Tests
use libzdb.Prelude.{
  ℕ, zero, suc, ◌+◌, ◌-◌, ◌*◌, ◌/◌, ◌%◌, Bool, true, false, ◌&&◌, not, List, [], ◌∷◌, ◌++◌, Option,
  some, none, ltb, leb, ◌==◌, if◌then◌else◌, Text, Result, ok, err, assert_exception, sql_exception,
  take, set, get_or, replicate, length, memmove, write,
}
use libzdb.Prelude.Int.{ℤ, pos, negsuc}
use libzdb.Util.Ctype.{isspace, tolower}
use libzdb.Util.Str.{str_def, lit}

pub record StringBuffer : Type 0 where
  pub used : ℕ
  pub length : ℕ
  pub buffer : List ℕ

abbrev strlen_default : ℕ
strlen_default = 256

-- The C string that begins at a cell: its bytes up to a zero.
unfoldable pub c_string : List ℕ → Text
c_string [] = []
c_string (c ∷ b) = if c == 0 then [] else c ∷ c_string b

-- The cells that `vsnprintf` fills when it may write `size` of them.
abbrev printed : ℕ → Text → Text
printed zero t = []
printed (suc n) t = take n t ++ 0 ∷ []

pub clear : StringBuffer → StringBuffer
clear S = record S { used = 0; buffer = set S.buffer 0 0 }

unfoldable pub questions : Text → ℕ
questions [] = 0
questions (c ∷ t) = let rest = questions t in if c == b'?' then suc rest else rest

pub marker : ℕ → ℕ → Text
marker prefix j =
    if ltb j 10 then prefix ∷ (j + b'0') ∷ [] else prefix ∷ (j / 10 + b'0') ∷ (j % 10 + b'0') ∷ []

pub terminate : StringBuffer → StringBuffer
terminate S = record S { buffer = set S.buffer S.used 0 }

-- The message, less the number of parameters found that ends it.
pub too_many : Text
too_many = lit "Max 99 parameters are allowed in a prepared statement"

drop_last : StringBuffer → StringBuffer
drop_last S = record S { used = S.used - 1; buffer = set S.buffer (S.used - 1) 0 }

-- The number of spaces from a cell on.
leading : List ℕ → ℕ
leading [] = 0
leading (c ∷ b) = let rest = leading b in if isspace c then suc rest else 0

-- The body of the loop at a question mark.
pub put_marker : ℕ → ℕ → ℕ → StringBuffer → StringBuffer
put_marker prefix i j S =
    let x = marker prefix j in
    let moved = memmove (i + length x) (i + 1) (S.used - (i + 1)) S.buffer in
    record S { used = S.used + (length x - 1); buffer = write i x moved }

module _ (junk : ℕ) where
  -- RESIZE: the cells that are kept, then cells that hold anything.
  abbrev resize : List ℕ → ℕ → List ℕ
  resize a n = take n a ++ replicate (n - length a) junk

  pub grow : ℕ → StringBuffer → StringBuffer
  grow n S = record S { length = n; buffer = resize S.buffer n }

  print : Text → StringBuffer → StringBuffer
  print t S = record S { buffer = write S.used (printed (S.length - S.used) t) S.buffer }

  -- The loop of `_append`, a number of rounds at most.
  append_loop : ℕ → Text → StringBuffer → Option StringBuffer
  append_loop zero t S = none
  append_loop (suc rounds) t S =
      let P = print t S in
      let rest = append_loop rounds t (grow (S.length + (strlen_default + length t)) P) in
      if ltb (S.used + length t) S.length
      then some (record P { used = S.used + length t })
      else rest

  -- `StringBuffer_append` and `StringBuffer_vappend` with a format and the text that it prints.
  pub append : Option Text → Text → StringBuffer → Option StringBuffer
  append format t S = if str_def format then append_loop 2 t S else some S

  -- `StringBuffer_set` and `StringBuffer_vset`.
  pub assign : Option Text → Text → StringBuffer → Option StringBuffer
  assign format t S = append format t (clear S)

  pub ctor : ℕ → StringBuffer
  ctor hint = record { used = 0; length = hint; buffer = set (replicate hint junk) 0 0 }

  -- `StringBuffer_new`, whose format is "%s".
  pub new : Text → Option StringBuffer
  new s = append (some (lit "%s")) s (ctor strlen_default)

  pub create : ℤ → Result StringBuffer
  create (negsuc n) = err assert_exception
  create (pos zero) = err assert_exception
  create (pos (suc n)) = ok (ctor (suc n))

  abbrev at : StringBuffer → ℕ → ℕ
  at S i = get_or S.buffer i junk

  -- The loop of `_prepare` from cell i and parameter j on, a number of rounds at most.
  pub prepare_loop : ℕ → ℕ → ℕ → ℕ → ℕ → StringBuffer → Option StringBuffer
  prepare_loop zero prefix n i j S = none
  prepare_loop (suc rounds) prefix n i j S =
      let found = at S i == b'?' in
      let rest =
        prepare_loop rounds prefix n (suc i) (if found then suc j else j)
          (if found then put_marker prefix i j S else S) in
      if leb j n then rest else some S

  -- `_prepare` once it has counted n question marks: the number and the buffer.
  prepare_counted : ℕ → ℕ → StringBuffer → Option (Result (ℕ × StringBuffer))
  prepare_counted n prefix S =
      let required = n * 2 + S.used in
      let R = if leb S.length required then grow required S else S in
      let replaced = prepare_loop (suc required) prefix n 0 1 R in
      if ltb 99 n
      then some (err (sql_exception too_many))
      else if n == 0
      then some (ok (0, S))
      else elim replaced [ none ↦ none | some Q ↦ some (ok (n, terminate Q)) ]

  pub prepare : ℕ → StringBuffer → Option (Result (ℕ × StringBuffer))
  prepare prefix S = prepare_counted (questions (c_string S.buffer)) prefix S

  unfoldable pub prepare4postgres : StringBuffer → Option (Result (ℕ × StringBuffer))
  prepare4postgres S = prepare b'$' S

  pub prepare4oracle : StringBuffer → Option (Result (ℕ × StringBuffer))
  prepare4oracle S = prepare b':' S

  pub has_trailing_ws : StringBuffer → Bool
  has_trailing_ws S =
      let last = at S (S.used - 1) in
      if ltb 0 S.used
      then if isspace last
        then true
        else if last == b';'
        then if ltb 3 S.used
          then not (
              tolower (at S (S.used - 2)) == b'd'
              && tolower (at S (S.used - 3)) == b'n'
              && tolower (at S (S.used - 4)) == b'e')
          else true
        else false
      else false

  -- The right trim, a number of rounds at most; each round takes a byte off.
  trim_right : ℕ → StringBuffer → StringBuffer
  trim_right zero S = S
  trim_right (suc rounds) S =
      let rest = trim_right rounds (drop_last S) in if has_trailing_ws S then rest else S

  trim_left : StringBuffer → StringBuffer
  unfolding terminate
  trim_left S =
      let i = leading S.buffer in
      let moved = memmove 0 i (S.used - i) S.buffer in
      if isspace (at S 0) then terminate (record S { used = S.used - i; buffer = moved }) else S

  pub trim : StringBuffer → StringBuffer
  trim S = trim_left (trim_right S.used S)

pub to_string : StringBuffer → Text
to_string S = c_string S.buffer

pub size : StringBuffer → ℕ
size S = S.used
