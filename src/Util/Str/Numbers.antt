-- ===== src/Util/Str/Numbers.antt =====
-- The number parsers of Str.c on a text of the form: spaces, a sign or none, digits, anything.
use libzdb.Prelude.{
  ℕ, zero, suc, ◌+◌, ◌-◌, ◌*◌, ◌^◌, ◌≤◌, ◌<◌, ◌≡◌, refl, ap, ◌∙◌, Bool, true, false, List, [], ◌∷◌,
  ◌++◌, map, some, arith, ok, err, sql_exception, Text, ◌==◌, lt→ltb,
}
use libzdb.Prelude.Int.{ℤ, pos}
use libzdb.Util.Ctype.{isspace, isdigit}
use libzdb.Util.Str.{
  skip_spaces, read_digits, neg_of, clamp, starts_number, strtol_signed, strtol_unsigned, strtol,
  wrap_int, to_int, checked, number_error, parse_llong, parse_int,
}

pub data Sign : Type 0 where
  unsigned plus minus : Sign

abbrev pub sign_text : Sign → Text
sign_text unsigned = []
sign_text plus = b'+' ∷ []
sign_text minus = b'-' ∷ []

-- Digits are given by their values.
abbrev pub digit : ℕ → ℕ
digit d = d + b'0'

abbrev pub AllDigits : List ℕ → Type 0
AllDigits [] = Unit {0}
AllDigits (d ∷ ds) = (d < 10) × AllDigits ds

abbrev pub AllSpaces : Text → Type 0
AllSpaces [] = Unit {0}
AllSpaces (c ∷ s) = (isspace c ≡ true) × AllSpaces s

abbrev pub NoDigit : Text → Type 0
NoDigit s = starts_number s ≡ false

abbrev pub value : ℕ → List ℕ → ℕ
value acc [] = acc
value acc (d ∷ ds) = value (acc * 10 + d) ds

abbrev pub signed : Sign → ℕ → ℤ
signed unsigned n = pos n
signed plus n = pos n
signed minus n = neg_of n

abbrev pub InRange : Sign → ℕ → Type 0
InRange unsigned n = n < 2 ^ 63
InRange plus n = n < 2 ^ 63
InRange minus n = n ≤ 2 ^ 63

-- The numeral as it stands in the text.
abbrev pub numeral : Text → Sign → List ℕ → Text → Text
numeral spaces g ds rest = spaces ++ (sign_text g ++ (map digit ds ++ rest))

digit-isdigit : (d : ℕ) → d < 10 → isdigit (digit d) ≡ true
unfolding isdigit
digit-isdigit d h = ground arith

digit-isspace : (d : ℕ) → isspace (digit d) ≡ false
unfolding isspace
digit-isspace d = ground arith

read_digits-value :
    (acc : ℕ) (ds : List ℕ) (rest : Text)
    → AllDigits ds
    → NoDigit rest
    → read_digits acc (map digit ds ++ rest) ≡ value acc ds
unfolding read_digits starts_number
read_digits-value acc [] [] h n = refl
read_digits-value acc [] (c ∷ rest) h n = rw n
read_digits-value acc (d ∷ ds) rest h n =
    let same : d + b'0' - b'0' ≡ d = omega arith in
    rw (digit-isdigit d h.0, same) (read_digits-value (acc * 10 + d) ds rest h.1 n)

skip_spaces-append :
    (s : Text) (c : ℕ) (t : Text)
    → AllSpaces s
    → isspace c ≡ false
    → skip_spaces (s ++ c ∷ t) ≡ c ∷ t
unfolding skip_spaces
skip_spaces-append [] c t h n = rw n
skip_spaces-append (x ∷ s) c t h n = rw h.0 (skip_spaces-append s c t h.1 n)

strtol_signed-value :
    (negative : Bool) (d : ℕ) (ds : List ℕ) (rest : Text)
    → AllDigits (d ∷ ds)
    → NoDigit rest
    → strtol_signed negative (map digit (d ∷ ds) ++ rest) ≡ some (clamp negative (value 0 (d ∷ ds)))
unfolding strtol_signed starts_number
strtol_signed-value negative d ds rest h n =
    rw (read_digits-value 0 (d ∷ ds) rest h n, digit-isdigit d h.0)

is_negative : Sign → Bool
is_negative minus = true
is_negative g = false

clamp-signed : (g : Sign) (n : ℕ) → InRange g n → clamp (is_negative g) n ≡ (signed g n, false)
unfolding clamp is_negative
clamp-signed unsigned n h = rw (lt→ltb n _ h)
clamp-signed plus n h = rw (lt→ltb n _ h)
clamp-signed minus n h = ground arith

clamp_out_of_range : (g : Sign) (n : ℕ) → ¬ (InRange g n) → (clamp (is_negative g) n).1 ≡ true
unfolding clamp is_negative
clamp_out_of_range unsigned n h = ground arith
clamp_out_of_range plus n h = ground arith
clamp_out_of_range minus n h = ground arith

-- A text that `strtol` reads is handed to it whole: it is not empty.
parse_llong-strtol :
    (t : Text) {v : ℤ × Bool} → strtol t ≡ some v → parse_llong (some t) ≡ checked t (some v)
unfolding parse_llong strtol skip_spaces strtol_unsigned
parse_llong-strtol [] e = cc
parse_llong-strtol (c ∷ s) e = rw e

parse_int-strtol :
    (t : Text) {v : ℤ} → strtol t ≡ some (v, false) → parse_int (some t) ≡ ok (to_int v)
unfolding parse_int checked strtol skip_spaces strtol_unsigned
parse_int-strtol [] e = cc
parse_int-strtol (c ∷ s) e = rw (e, parse_int)

checked_out_of_range :
    (t : Text) (v : ℤ × Bool)
    → v.1 ≡ true
    → checked t (some v) ≡ err (sql_exception (number_error t))
unfolding checked
checked_out_of_range t (v, true) h = refl
checked_out_of_range t (v, false) h = cc

to_int_small : (g : Sign) (n : ℕ) → n < 2 ^ 31 → to_int (signed g n) ≡ signed g n
unfolding to_int wrap_int neg_of
to_int_small unsigned n h = ground arith
to_int_small plus n h = ground arith
to_int_small minus zero h = refl
to_int_small minus (suc n) h = ground arith

-- A numeral: spaces, then digits of which d is the first, then something that is no digit.
pub record IsNumeral (spaces : Text) (d : ℕ) (ds : List ℕ) (rest : Text) : Type 0 where
  pub all_spaces : AllSpaces spaces
  pub all_digits : AllDigits (d ∷ ds)
  pub ended : NoDigit rest

module _ (spaces : Text) (d : ℕ) (ds : List ℕ) (rest : Text) (h : IsNumeral spaces d ds rest) where
  abbrev amount : ℕ
  amount = value 0 (d ∷ ds)

  digits_value :
      (negative : Bool)
      → strtol_signed negative (map digit (d ∷ ds) ++ rest) ≡ some (clamp negative amount)
  digits_value negative = strtol_signed-value negative d ds rest h.all_digits h.ended

  strtol_unsigned-value :
      (g : Sign)
      → strtol_unsigned (sign_text g ++ (map digit (d ∷ ds) ++ rest))
        ≡ some (clamp (is_negative g) amount)
  unfolding strtol_unsigned is_negative
  strtol_unsigned-value unsigned =
      let no_minus : digit d == b'-' ≡ false = ground arith in
      let no_plus : digit d == b'+' ≡ false = ground arith in
      rw (no_minus, no_plus) (digits_value false)
  strtol_unsigned-value plus = digits_value false
  strtol_unsigned-value minus = digits_value true

  skipped :
      (g : Sign)
      → skip_spaces (numeral spaces g (d ∷ ds) rest) ≡ sign_text g ++ (map digit (d ∷ ds) ++ rest)
  unfolding isspace
  skipped unsigned =
      skip_spaces-append spaces (digit d) (map digit ds ++ rest) h.all_spaces (digit-isspace d)
  skipped plus = skip_spaces-append spaces b'+' (map digit (d ∷ ds) ++ rest) h.all_spaces refl
  skipped minus = skip_spaces-append spaces b'-' (map digit (d ∷ ds) ++ rest) h.all_spaces refl

  strtol-value :
      (g : Sign) → strtol (numeral spaces g (d ∷ ds) rest) ≡ some (clamp (is_negative g) amount)
  unfolding strtol
  strtol-value g = rw (skipped g) (strtol_unsigned-value g)

  -- A numeral that fits a long long is parsed to its value; any other throws.
  pub parse_llong-value :
      (g : Sign)
      → (InRange g amount
          → parse_llong (some (numeral spaces g (d ∷ ds) rest)) ≡ ok (signed g amount))
        × (¬ (InRange g amount)
            → parse_llong (some (numeral spaces g (d ∷ ds) rest))
              ≡ err (sql_exception (number_error (numeral spaces g (d ∷ ds) rest))))
  unfolding checked
  parse_llong-value g =
      let whole = parse_llong-strtol (numeral spaces g (d ∷ ds) rest) (strtol-value g) in
      (
        λ fits. whole ∙ rw (clamp-signed g amount fits),
        λ outside. whole ∙ checked_out_of_range _ _ (clamp_out_of_range g amount outside),
      )

  -- A numeral that fits a long is cut to 32 bits by `Str_parseInt`, with no exception.
  pub parse_int-to_int :
      (g : Sign)
      → InRange g amount
      → parse_int (some (numeral spaces g (d ∷ ds) rest)) ≡ ok (to_int (signed g amount))
  parse_int-to_int g fits =
      parse_int-strtol (numeral spaces g (d ∷ ds) rest)
        (strtol-value g ∙ ap some (clamp-signed g amount fits))

  InRange-small : (g : Sign) (n : ℕ) → n < 2 ^ 31 → InRange g n
  InRange-small unsigned n k = omega arith
  InRange-small plus n k = omega arith
  InRange-small minus n k = omega arith

  -- A numeral of fewer than 32 bits is parsed to its value.
  pub parse_int-value :
      (g : Sign)
      → amount < 2 ^ 31
      → parse_int (some (numeral spaces g (d ∷ ds) rest)) ≡ ok (signed g amount)
  parse_int-value g small =
      parse_int-to_int g (InRange-small g amount small) ∙ ap ok (to_int_small g amount small)
