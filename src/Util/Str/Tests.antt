-- ===== src/Util/Str/Tests.antt =====
-- The theorems about strings, at short texts.
use libzdb.Prelude.{◌≡◌, refl, true, [], ◌∷◌, arith, some, ok, err, sql_exception, ◌↔◌}
use libzdb.Prelude.Int.{pos, negsuc}
use libzdb.Util.Ctype.{isspace, isdigit}
use libzdb.Util.Str.{
  lit, parse_int, parse_llong, parse_bool, skip_spaces, to_int, number_error, starts_number, neg_of,
}
use libzdb.Util.Str.Numbers.{Sign, InRange, IsNumeral, parse_llong-value, parse_int-to_int}
use libzdb.Util.Str.Booleans.{BeginsWithOneOf, true_words, parse_bool-BeginsWithOneOf}

parse_bool-BeginsWithOneOf_example :
    (parse_bool (some (lit " Yes")) ≡ true) ↔ BeginsWithOneOf (skip_spaces (lit " Yes")) true_words
parse_bool-BeginsWithOneOf_example = parse_bool-BeginsWithOneOf (lit " Yes")

forty_two-IsNumeral : IsNumeral (lit " ") 4 (2 ∷ []) (lit "x")
unfolding isspace isdigit starts_number
forty_two-IsNumeral = record {
  all_spaces = (refl, tt);
  all_digits = (omega arith, (omega arith, tt));
  ended = refl;
}

parse_llong-value_example :
    (InRange Sign.minus 42 → parse_llong (some (lit " -42x")) ≡ ok (negsuc 41))
    × (¬ (InRange Sign.minus 42)
        → parse_llong (some (lit " -42x")) ≡ err (sql_exception (number_error (lit " -42x"))))
unfolding neg_of
parse_llong-value_example =
    parse_llong-value (lit " ") 4 (2 ∷ []) (lit "x") forty_two-IsNumeral Sign.minus

parse_int-to_int_example : parse_int (some (lit " 42x")) ≡ ok (to_int (pos 42))
parse_int-to_int_example =
    parse_int-to_int (lit " ") 4 (2 ∷ []) (lit "x") forty_two-IsNumeral Sign.unsigned (omega arith)
