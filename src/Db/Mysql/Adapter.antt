-- ===== src/Db/Mysql/Adapter.antt =====
-- What the driver takes from the client library of MySQL, at version 8 or later, and from libc.
use libzdb.Prelude.{ℕ, Bool, List, Option, Text}
use libzdb.Prelude.Int.{ℤ}
use libzdb.Db.Delegate.{Tm}

-- What `mysql_options` is called with.
pub data Setting : Type 0 where
  ssl_required : Setting
  default_auth : Text → Setting
  connect_timeout : ℤ → Setting
  charset_name : Text → Setting
  reconnect : Setting

pub data Cursor : Type 0 where
  no_cursor read_only : Cursor

-- A column of a result set, with its entry of the array that is bound: what the client library writes on a
-- fetch, and the buffer that it writes to, of which it is told all cells but the last.
pub record Column : Type 0 where
  pub is_null : Bool
  pub real_length : ℕ
  pub buffer_length : ℕ
  pub buffer : List ℕ
  pub name : Text

-- The value of a parameter; a timestamp is its parts.
pub data Value (Double : Type 0) : Type 0 where
  no_value : Value Double
  string blob : Option Text → Value Double
  integer llong : ℤ → Value Double
  real : Double → Value Double
  timestamp : Tm → Value Double

-- A parameter as it is bound.
pub record Parameter (Double : Type 0) : Type 0 where
  pub value : Value Double
  pub is_null : Bool
  pub length : ℤ

pub record Mysql : Type 1 where
  pub World : Type 0
  pub Db : Type 0
  pub Stmt : Type 0
  pub Meta : Type 0
  pub Double : Type 0
  pub out_of_memory : ℕ
  pub data_truncated : ℕ
  pub multi_statements : ℕ
  pub compress : ℕ
  pub init : World → Option Db × World
  pub options : Db → Setting → World → World
  pub real_connect :
      Db → Option Text → Text → Text → Text → ℤ → Option Text → ℕ → World → Bool × World
  pub close : Db → World → World
  pub error : Db → World → Text
  pub errno : Db → World → ℕ
  pub ping : Db → World → ℕ × World
  pub query : Db → Text → World → ℕ × World
  pub insert_id : Db → World → ℤ
  pub affected_rows : Db → World → ℤ
  pub stmt_init : Db → World → Option Stmt × World
  pub stmt_prepare : Stmt → Text → World → ℕ × World
  pub stmt_error : Stmt → World → Text
  pub stmt_close : Stmt → World → World
  pub stmt_param_count : Stmt → World → ℕ
  pub stmt_bind_param : Stmt → List (Parameter Double) → World → ℕ × World
  pub stmt_cursor : Stmt → Cursor → World → World
  pub stmt_execute : Stmt → World → ℕ × World
  pub stmt_reset : Stmt → World → ℕ × World
  pub stmt_affected_rows : Stmt → World → ℤ
  pub stmt_free_result : Stmt → World → World
  -- `while (mysql_stmt_next_result(stmt) == 0);`
  pub run_down : Stmt → World → World
  pub stmt_field_count : Stmt → World → ℕ
  pub stmt_result_metadata : Stmt → World → Option Meta × World
  pub free_meta : Meta → World → World
  pub field_name : Meta → ℕ → World → Text
  pub stmt_bind_result : Stmt → List Column → World → ℕ × World
  pub stmt_prefetch_rows : Stmt → ℤ → World → ℕ × World
  pub stmt_fetch : Stmt → List Column → World → (ℕ × List Column) × World
  pub stmt_fetch_column : Stmt → ℕ → Column → World → (ℕ × Column) × World
  pub print_int : ℤ → Text
  pub gmtime : ℤ → Tm
  -- The value of a cell that nobody has written.
  pub junk : ℕ
