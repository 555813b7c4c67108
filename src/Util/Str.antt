-- ===== src/Util/Str.antt =====
-- src/util/Str.c. A `char *` is NULL or a C string, given by its bytes up to the terminating zero,
-- none of which is zero. Allocation is taken to succeed.
pub mod Equality
pub mod Copies
pub mod Numbers
pub mod Booleans
mod Tests
use Prim.Native.String.{String}
use Prim.Native.Char.{code}
use Prim.Native.String
use libzdb.Prelude.{
  ℕ, zero, suc, ◌+◌, ◌-◌, ◌*◌, ◌%◌, ◌^◌, Bool, true, false, ◌&&◌, ◌||◌, not, List, [], ◌∷◌, ◌++◌,
  Option, some, none, min, ltb, leb, ◌==◌, if◌then◌else◌, Text, Result, ok, err, assert_exception,
  sql_exception, take, length,
}
use libzdb.Prelude.Int.{ℤ, pos, negsuc}
use libzdb.Util.Ctype.{isspace, isdigit, tolower, toupper}

-- A string literal.
abbrev pub lit : String → Text
lit String.[] = []
lit (String.◌∷◌ c s) = code c ∷ lit s

-- STR_DEF.
abbrev pub str_def : Option Text → Bool
str_def none = false
str_def (some []) = false
str_def (some (c ∷ s)) = true

unfoldable pub equal_ignoring_case : Text → Text → Bool
equal_ignoring_case [] [] = true
equal_ignoring_case [] (y ∷ b) = false
equal_ignoring_case (x ∷ a) [] = false
equal_ignoring_case (x ∷ a) (y ∷ b) =
    if toupper x == toupper y then equal_ignoring_case a b else false

unfoldable pub is_equal : Option Text → Option Text → Bool
unfolding equal_ignoring_case
is_equal none b = false
is_equal (some a) none = false
is_equal (some a) (some b) = equal_ignoring_case a b

unfoldable pub equal_bytes : Text → Text → Bool
equal_bytes [] [] = true
equal_bytes [] (y ∷ b) = false
equal_bytes (x ∷ a) [] = false
equal_bytes (x ∷ a) (y ∷ b) = if x == y then equal_bytes a b else false

unfoldable pub is_byte_equal : Option Text → Option Text → Bool
unfolding equal_bytes
is_byte_equal none b = false
is_byte_equal (some a) none = false
is_byte_equal (some a) (some b) = equal_bytes a b

-- The do-while loop of `Str_startsWith`. Its first round compares the two first bytes also where one
-- of them is the terminating zero.
unfoldable pub starts_from : Text → Text → Bool
starts_from [] [] = true
starts_from [] (y ∷ b) = false
starts_from (x ∷ a) [] = false
starts_from (x ∷ a) (y ∷ []) = x == y
starts_from (x ∷ a) (y ∷ z ∷ b) = if x == y then starts_from a (z ∷ b) else false

unfoldable pub starts_with : Option Text → Option Text → Bool
unfolding starts_from
starts_with none b = false
starts_with (some a) none = false
starts_with (some a) (some b) = starts_from a b

unfoldable pub member_of : Text → List Text → Bool
unfolding equal_ignoring_case
member_of s [] = false
member_of s (x ∷ set) = equal_ignoring_case x s || member_of s set

unfoldable pub member : Option Text → Option (List Text) → Bool
unfolding member_of
member none set = false
member (some []) set = false
member (some (c ∷ s)) none = false
member (some (c ∷ s)) (some set) = member_of (c ∷ s) set

-- The loop of `Str_copy` on the cells of the destination; `none` is a write past their end.
copy_loop : Text → ℕ → List ℕ → Option (List ℕ)
copy_loop s n [] = none
copy_loop [] n (c ∷ d) = some (0 ∷ d)
copy_loop (x ∷ s) zero (c ∷ d) = some (0 ∷ d)
copy_loop (x ∷ s) (suc n) (c ∷ d) = elim (copy_loop s n d) [ none ↦ none | some d' ↦ some (x ∷ d') ]

-- `*dest = 0`.
clear_first : List ℕ → Option (List ℕ)
clear_first [] = none
clear_first (c ∷ d) = some (0 ∷ d)

-- The destination after `Str_copy` into one that is not NULL.
pub copy : List ℕ → Option Text → ℤ → Option (List ℕ)
unfolding copy_loop clear_first
copy dest none n = clear_first dest
copy dest (some src) (negsuc n) = clear_first dest
copy dest (some src) (pos zero) = clear_first dest
copy dest (some src) (pos (suc n)) = copy_loop src (suc n) dest

pub dup : Option Text → Option Text
dup s = s

pub ndup : Option Text → ℤ → Result (Option Text)
ndup s (negsuc n) = err assert_exception
ndup none (pos n) = ok none
ndup (some s) (pos n) = let l = length s in let k = if ltb l n then l else n in ok (some (take k s))

-- `Str_cat` and `Str_vcat`: what `vsnprintf` prints for a format and its arguments is a parameter.
pub vcat {ℓ} : {Args : Type ℓ} → (Text → Args → Text) → Option Text → Args → Option Text
vcat printf none ap = none
vcat printf (some s) ap =
    let size = length (printf s ap) + 1 in some (take (size - 1) (printf s ap))

pub cat {ℓ} : {Args : Type ℓ} → (Text → Args → Text) → Option Text → Args → Option Text
unfolding vcat
cat printf none ap = none
cat printf (some s) ap = vcat printf (some s) ap

pub skip_spaces : Text → Text
skip_spaces [] = []
skip_spaces (c ∷ s) = if isspace c then skip_spaces s else c ∷ s

-- libc's `strtol` and `strtoll` in base 10 with a 64-bit `long`: the value, and whether `errno` is
-- set; `none` where no digit was read.
read_digits : ℕ → Text → ℕ
read_digits acc [] = acc
read_digits acc (c ∷ s) =
    let rest = read_digits (acc * 10 + (c - b'0')) s in if isdigit c then rest else acc

abbrev long_min_abs : ℕ
long_min_abs = 2 ^ 63

pub neg_of : ℕ → ℤ
neg_of zero = pos 0
neg_of (suc n) = negsuc n

clamp : Bool → ℕ → ℤ × Bool
clamp true n = if leb n long_min_abs then (neg_of n, false) else (neg_of long_min_abs, true)
clamp false n = if ltb n long_min_abs then (pos n, false) else (pos (long_min_abs - 1), true)

pub starts_number : Text → Bool
starts_number [] = false
starts_number (c ∷ s) = isdigit c

strtol_signed : Bool → Text → Option (ℤ × Bool)
strtol_signed negative s = if starts_number s then some (clamp negative (read_digits 0 s)) else none

strtol_unsigned : Text → Option (ℤ × Bool)
strtol_unsigned [] = none
strtol_unsigned (c ∷ s) =
    if c == b'-'
    then strtol_signed true s
    else if c == b'+'
    then strtol_signed false s
    else strtol_signed false (c ∷ s)

strtol : Text → Option (ℤ × Bool)
strtol s = strtol_unsigned (skip_spaces s)

-- The conversion of a 64-bit value to a 32-bit `int`.
pub wrap_int : ℕ → ℤ
wrap_int r = if ltb r (2 ^ 31) then pos r else negsuc (2 ^ 32 - 1 - r)

pub to_int : ℤ → ℤ
to_int (pos n) = wrap_int (n % 2 ^ 32)
to_int (negsuc n) = wrap_int (2 ^ 32 - 1 - n % 2 ^ 32)

-- The message of a failed conversion, less the text of `errno` that ends it.
pub number_error : Text → Text
number_error s = lit "NumberFormatException: For input string " ++ s

-- The two tests behind each of the parse functions.
checked {ℓ} : {A : Type ℓ} → Text → Option (A × Bool) → Result A
checked s none = err (sql_exception (number_error s))
checked s (some (v, true)) = err (sql_exception (number_error s))
checked s (some (v, false)) = ok v

null_input : Text
null_input = lit "NumberFormatException: For input string null"

pub parse_llong : Option Text → Result ℤ
parse_llong none = err (sql_exception null_input)
parse_llong (some []) = err (sql_exception null_input)
parse_llong (some (c ∷ s)) = checked (c ∷ s) (strtol (c ∷ s))

pub parse_int : Option Text → Result ℤ
parse_int none = err (sql_exception null_input)
parse_int (some []) = err (sql_exception null_input)
parse_int (some (c ∷ s)) = elim (checked (c ∷ s) (strtol (c ∷ s))) [
  | ok l ↦ ok (to_int l)
  | err e ↦ err e
]

-- `strtod` is a parameter: there are no floating-point numbers here.
pub parse_double {ℓ} : {D : Type ℓ} → (Text → Option (D × Bool)) → Option Text → Result D
parse_double strtod none = err (sql_exception null_input)
parse_double strtod (some []) = err (sql_exception null_input)
parse_double strtod (some (c ∷ s)) = checked (c ∷ s) (strtod (c ∷ s))

-- The end of the string or a space.
pub ends : Text → Bool
ends [] = true
ends (c ∷ s) = isspace c

-- `_is_equals_ci`
pub is_equals_ci : Text → Text → Bool
unfolding ends
is_equals_ci s [] = ends s
is_equals_ci [] (l ∷ ls) = false
is_equals_ci (c ∷ s) (l ∷ ls) = if tolower c == tolower l then is_equals_ci s ls else false

-- The switch of `Str_parseBool`, on the text behind its spaces.
bool_word : Text → Bool
unfolding is_equals_ci
bool_word [] = false
bool_word (c ∷ s) =
    let k = tolower c in
    if k == b'1'
    then ends s
    else if k == b'y'
    then is_equals_ci (c ∷ s) (lit "yes")
    else if k == b't'
    then is_equals_ci (c ∷ s) (lit "true")
    else if k == b'o'
    then is_equals_ci (c ∷ s) (lit "on")
    else if k == b'e'
    then is_equals_ci (c ∷ s) (lit "enable") || is_equals_ci (c ∷ s) (lit "enabled")
    else false

unfoldable pub parse_bool : Option Text → Bool
unfolding bool_word skip_spaces
parse_bool none = false
parse_bool (some []) = false
parse_bool (some (c ∷ s)) = bool_word (skip_spaces (c ∷ s))
