-- ===== src/Db/Postgresql/Tests.antt =====
-- The theorems about the driver for PostgreSQL, with a server that answers each statement with a result of
-- three rows; its world counts the calls.
use libzdb.Prelude.{
  ℕ, zero, suc, ◌+◌, ◌≡◌, refl, Bool, true, false, ◌||◌, ltb, List, [], ◌∷◌, ◌++◌, some, none, Text,
  err, arith, sql_exception, length, replicate,
}
use libzdb.Prelude.Int.{pos}
use libzdb.Util.Str.{lit}
use libzdb.Util.StringBuffer.{questions, too_many}
use libzdb.Util.StringBuffer.Holding.{NoZero}
use libzdb.Db.Postgresql.Adapter.{Libpq}
use libzdb.Db.Postgresql.Bytea.{unescape_bytea}
use libzdb.Db.Postgresql.Bytea.Cells.{Holds}
use libzdb.Db.Postgresql.Bytea.Hex.{hex_text, hex_value, unescape_bytea-hex_value}
use libzdb.Db.Postgresql.Bytea.Escape.{escape_text, unescape_bytea-escape_text}
use libzdb.Db.Postgresql.Session.{Session, prepare_statement, execute}
use libzdb.Db.Postgresql.Session.Clearing.{prepare_statement-execute}

abbrev server : Libpq
server = record {
  World = ℕ;
  Conn = Unit {0};
  Res = Unit {0};
  Double = ℕ;
  command_ok = 1;
  tuples_ok = 2;
  empty_query = 0;
  fatal_error = 7;
  connectdb = λ t w. (tt, w + 1);
  is_connected = λ c w. true;
  error_message = λ c w. [];
  finish = λ c w. w + 1;
  exec = λ c t w. (some tt, w + 1);
  prepare = λ c name t w. (some tt, w + 1);
  exec_prepared = λ c name ps w. (some tt, w + 1);
  clear = λ r w. w + 1;
  result_status = λ r w. 1;
  result_error_message = λ r w. [];
  oid_value = λ r w. pos 0;
  cmd_tuples = λ r w. none;
  nfields = λ r w. pos 1;
  ntuples = λ r w. pos 3;
  fname = λ r i w. some (lit "id");
  getisnull = λ r k i w. false;
  getlength = λ r k i w. 1;
  getvalue = λ r k i w. lit "7" ++ 0 ∷ [];
  write_value = λ r k i s w. w;
  print_int = λ n. lit "7";
  print_double = λ n. lit "7";
  time_to_string = λ n. lit "7";
  junk = 0;
}

abbrev bytes : Text
bytes = 0 ∷ 92 ∷ 255 ∷ 65 ∷ []

unescape_bytea-hex_value_example :
    (s : List ℕ) × (unescape_bytea (hex_value bytes) (2 + length (hex_text bytes)) ≡ some (s, 4))
    × Holds bytes s
unescape_bytea-hex_value_example =
    unescape_bytea-hex_value bytes (omega arith, (omega arith, (omega arith, (omega arith, tt))))

abbrev unprintable : ℕ → Bool
unprintable c = ltb c 32 || ltb 126 c

unescape_bytea-escape_text_example :
    (s : List ℕ) × (unescape_bytea
        (escape_text unprintable bytes ++ 0 ∷ [])
        (length (escape_text unprintable bytes))
      ≡ some (s, 4))
    × Holds bytes s
unescape_bytea-escape_text_example =
    unescape_bytea-escape_text unprintable bytes
      (omega arith, (omega arith, (omega arith, (omega arith, tt))))

-- Reading a value a second time unescapes what is already unescaped: of a letter in the hex format, whose
-- size was 1, the size is then 4.
blob_once : unescape_bytea (hex_value (65 ∷ [])) 4 ≡ some (65 ∷ 0 ∷ 52 ∷ 49 ∷ 0 ∷ [], 1)
unfolding unescape_bytea
blob_once = refl

blob_twice : unescape_bytea (65 ∷ 0 ∷ 52 ∷ 49 ∷ 0 ∷ []) 4 ≡ some (65 ∷ 0 ∷ 52 ∷ 49 ∷ 0 ∷ [], 4)
unfolding unescape_bytea
blob_twice = refl

abbrev session : Session server
session = record { db = tt; res = some tt; delegator = 1; last_error = 1 }

abbrev crowded : Text
crowded = replicate 100 63

no_zeros : (n : ℕ) → NoZero (replicate n 63)
no_zeros zero = tt
no_zeros (suc n) = (λ e. omega arith, no_zeros n)

prepare_statement-execute_example :
    (prepare_statement server session 5 crowded 1000
      ≡ some (err (sql_exception too_many), session, 5, 1001))
    × ((execute server session (lit "COMMIT") 1001).2 ≡ 1003)
unfolding questions
prepare_statement-execute_example =
    prepare_statement-execute server session 5 crowded (lit "COMMIT") 1000 (no_zeros 100)
      (omega arith)
