-- ===== src/Db/Postgresql/Adapter.antt =====
-- What the driver takes from libpq and libc. A `PGresult *` may be NULL where the connection is out of
-- memory or lost, which the functions that read a result accept.
use libzdb.Prelude.{ℕ, Bool, List, Option, Text}
use libzdb.Prelude.Int.{ℤ}

-- A parameter as it is handed to `PQexecPrepared`: the value, its length and its format.
pub record Parameter : Type 0 where
  pub value : Option Text
  pub length : ℤ
  pub format : ℕ

pub record Libpq : Type 1 where
  pub World : Type 0
  pub Conn : Type 0
  pub Res : Type 0
  pub Double : Type 0
  pub command_ok : ℕ
  pub tuples_ok : ℕ
  pub empty_query : ℕ
  pub fatal_error : ℕ
  pub connectdb : Text → World → Conn × World
  pub is_connected : Conn → World → Bool
  pub error_message : Conn → World → Text
  pub finish : Conn → World → World
  pub exec : Conn → Text → World → Option Res × World
  pub prepare : Conn → Text → Text → World → Option Res × World
  pub exec_prepared : Conn → Text → List Parameter → World → Option Res × World
  pub clear : Option Res → World → World
  pub result_status : Option Res → World → ℕ
  pub result_error_message : Option Res → World → Text
  pub oid_value : Option Res → World → ℤ
  pub cmd_tuples : Option Res → World → Option Text
  pub nfields : Res → World → ℤ
  pub ntuples : Res → World → ℤ
  pub fname : Res → ℤ → World → Option Text
  pub getisnull : Res → ℤ → ℤ → World → Bool
  pub getlength : Res → ℤ → ℤ → World → ℕ
  -- The cells that `PQgetvalue` points to, with the terminating zero, and writing to them.
  pub getvalue : Res → ℤ → ℤ → World → List ℕ
  pub write_value : Res → ℤ → ℤ → List ℕ → World → World
  pub print_int : ℤ → Text
  pub print_double : Double → Text
  pub time_to_string : ℤ → Text
  -- The value of a cell that nobody has written.
  pub junk : ℕ
