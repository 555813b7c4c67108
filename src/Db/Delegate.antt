-- ===== src/Db/Delegate.antt =====
-- The contracts of src/db/ConnectionDelegate.h, src/db/PreparedStatementDelegate.h and
-- src/db/ResultSetDelegate.h: tables of functions that a database driver fills in. A driver works on
-- what is outside of this library, the `World`: the client library, the network and the database.
use libzdb.Prelude.{ℕ, Bool, not, ◌||◌, Option, Text, Result, ok, err, sql_exception, if◌then◌else◌}
use libzdb.Prelude.Int.{ℤ, pos, ◌-ℤ◌, ltb_ℤ}
use libzdb.Net.Url.{Url}

-- A broken-down time, `struct tm`.
pub record Tm : Type 0 where
  pub year : ℤ
  pub month : ℤ
  pub day : ℤ
  pub hour : ℤ
  pub minute : ℤ
  pub second : ℤ

-- The types of the opaque delegates, the clock (`Time_now`, in seconds), the floating-point numbers with
-- `strtod`, and the two parsers of src/system/Time.re that result sets call.
pub record System : Type 1 where
  pub World : Type 0
  pub ConnectionDelegate : Type 0
  pub StatementDelegate : Type 0
  pub ResultDelegate : Type 0
  pub now : World → ℕ
  pub Double : Type 0
  pub zero_double : Double
  pub strtod : Text → Option (Double × Bool)
  pub to_timestamp : Text → Result ℤ
  pub to_date_time : Text → Result Tm

-- A call into a driver that may throw.
abbrev pub Call : System → Type 0 → Type 0
Call s A = s.World → Result A × s.World

pub record Rop (s : System) : Type 0 where
  pub free : s.ResultDelegate → s.World → s.World
  pub get_column_count : s.ResultDelegate → s.World → ℤ
  pub get_column_name : s.ResultDelegate → ℤ → s.World → Option Text
  pub get_column_size : s.ResultDelegate → ℤ → Call s ℤ
  pub set_fetch_size : Option (s.ResultDelegate → ℤ → s.World → s.World)
  pub get_fetch_size : Option (s.ResultDelegate → s.World → ℤ)
  pub next : s.ResultDelegate → Call s Bool
  pub isnull : s.ResultDelegate → ℤ → Call s Bool
  pub get_string : s.ResultDelegate → ℤ → Call s (Option Text)
  pub get_blob : s.ResultDelegate → ℤ → Call s (Option Text × ℤ)
  pub get_timestamp : Option (s.ResultDelegate → ℤ → Call s ℤ)
  pub get_date_time : Option (s.ResultDelegate → ℤ → Call s Tm)

pub record ResultSet (s : System) : Type 0 where
  pub op : Rop s
  pub delegate : s.ResultDelegate

pub record Pop (s : System) : Type 0 where
  pub free : s.StatementDelegate → s.World → s.World
  pub set_string : s.StatementDelegate → ℤ → Option Text → ℤ → Call s (Unit {0})
  pub set_int : s.StatementDelegate → ℤ → ℤ → Call s (Unit {0})
  pub set_llong : s.StatementDelegate → ℤ → ℤ → Call s (Unit {0})
  pub set_double : s.StatementDelegate → ℤ → s.Double → Call s (Unit {0})
  pub set_timestamp : s.StatementDelegate → ℤ → ℤ → Call s (Unit {0})
  pub set_blob : s.StatementDelegate → ℤ → Option Text → ℤ → Call s (Unit {0})
  pub execute : s.StatementDelegate → Call s (Unit {0})
  pub execute_query : s.StatementDelegate → Call s (Option (ResultSet s))
  pub rows_changed : s.StatementDelegate → s.World → Result ℤ
  pub parameter_count : s.StatementDelegate → s.World → ℤ

pub record Statement (s : System) : Type 0 where
  pub op : Pop s
  pub result_set : Option (ResultSet s)
  pub delegate : s.StatementDelegate

pub data TransactionType : Type 0 where
  default read_uncommitted read_committed repeatable_read serializable immediate exclusive :
      TransactionType

-- What a driver's `new` does: the delegate, if it could connect, the message if it could not, and the
-- fetch size, which it may set on the connection.
pub record Opened (s : System) : Type 0 where
  pub delegate : Option s.ConnectionDelegate
  pub message : Option Text
  pub fetch_size : ℤ

-- The properties that a driver reads back from the connection that it serves.
pub record Settings : Type 0 where
  pub url : Url
  pub max_rows : ℤ
  pub fetch_size : ℤ
  pub query_timeout : ℤ

pub record Cop (s : System) : Type 0 where
  pub name : Text
  pub new : Settings → Call s (Opened s)
  pub free : s.ConnectionDelegate → s.World → s.World
  pub ping : s.ConnectionDelegate → s.World → Bool × s.World
  pub set_query_timeout : Option (s.ConnectionDelegate → ℤ → s.World → s.World)
  pub begin_transaction_type : s.ConnectionDelegate → TransactionType → s.World → Bool × s.World
  pub commit : s.ConnectionDelegate → s.World → Bool × s.World
  pub rollback : s.ConnectionDelegate → s.World → Bool × s.World
  pub last_row_id : s.ConnectionDelegate → s.World → ℤ
  pub rows_changed : s.ConnectionDelegate → s.World → Result ℤ
  pub execute : s.ConnectionDelegate → Text → Call s Bool
  pub execute_query : s.ConnectionDelegate → Settings → Text → Call s (Option (ResultSet s))
  pub prepare_statement : s.ConnectionDelegate → Settings → Text → Call s (Option (Statement s))
  pub get_last_error : s.ConnectionDelegate → s.World → Option Text

-- `checkAndSetColumnIndex` and `checkAndSetParameterIndex`, which differ in the message alone.
unfoldable pub check_index : Text → ℤ → ℤ → Result ℤ
unfolding ◌-ℤ◌
check_index message index count =
    let i = index -ℤ pos 1 in
    if ltb_ℤ count (pos 1) || ltb_ℤ i (pos 0) || not (ltb_ℤ i count)
    then err (sql_exception message)
    else ok i
