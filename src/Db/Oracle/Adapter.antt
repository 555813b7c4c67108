-- ===== src/Db/Oracle/Adapter.antt =====
-- src/db/oracle/OracleAdapter.h and src/db/oracle/OracleAdapter.c: what the driver takes from the client
-- library of Oracle and from the threads, the status of a call and its message. A handle that is NULL is
-- `none`, and may be handed to the library.
use libzdb.Prelude.{ℕ, Bool, true, false, List, Option, none, some, Text, []}
use libzdb.Prelude.Int.{ℤ}
use libzdb.Util.Str.{lit}
use libzdb.Db.Delegate.{Tm}

pub data Status : Type 0 where
  success success_with_info need_data no_data error invalid_handle still_executing continue : Status
  other : ℕ → Status

unfoldable pub is_success : Status → Bool
is_success Status.success = true
is_success status = false

-- The test that most calls are followed by.
unfoldable pub is_fine : Status → Bool
is_fine Status.success = true
is_fine Status.success_with_info = true
is_fine status = false

unfoldable pub is_need_data : Status → Bool
is_need_data Status.need_data = true
is_need_data status = false

pub data Piece : Type 0 where
  first_piece next_piece : Piece

-- The types of a column that the driver tells apart.
pub data ColumnType : Type 0 where
  blob clob timestamp text : ColumnType

-- The flags of a transaction next to OCI_TRANS_NEW.
pub data Isolation : Type 0 where
  readonly serializable : Isolation

-- What is bound to a parameter.
pub data Bound (Number Date Double : Type 0) : Type 0 where
  chars bytes : Option Text → ℤ → Bool → Bound Number Date Double
  integer : ℤ → Bound Number Date Double
  number : Number → Bound Number Date Double
  real : Double → Bound Number Date Double
  date : Option Date → Bound Number Date Double

-- `struct column_t`, less the handle of the definition: what the client library writes on a fetch, and the
-- cells that it writes to.
pub record Column (Lob Date : Type 0) : Type 0 where
  pub is_null : Bool
  pub buffer : Option (List ℕ)
  pub name : Option Text
  pub length : ℕ
  pub lob_loc : Option Lob
  pub date : Option Date

pub record Oci : Type 1 where
  pub World : Type 0
  pub Env : Type 0
  pub Err : Type 0
  pub Srv : Type 0
  pub Svc : Type 0
  pub Usr : Type 0
  pub Txn : Type 0
  pub Stmt : Type 0
  pub Parameter : Type 0
  pub Lob : Type 0
  pub Date : Type 0
  pub Number : Type 0
  pub Double : Type 0
  pub Thread : Type 0
  -- The text of the last error, in a buffer of as many bytes.
  pub error_get : Option Err → ℕ → World → Text
  -- The buffer of the thread for such a text, which `malloc` leaves as it is.
  pub thread_buffer : World → Option Text
  pub set_thread_buffer : Text → World → World
  pub thread_create : World → Thread × World
  pub thread_join : Thread → World → World
  pub env_create : World → (Bool × Option Env) × World
  pub env_free : Option Env → World → World
  pub alloc_err : Option Env → World → (Status × Option Err) × World
  pub alloc_srv : Option Env → World → (Status × Option Srv) × World
  pub alloc_svc : Option Env → World → (Status × Option Svc) × World
  pub alloc_usr : Option Env → World → (Status × Option Usr) × World
  pub alloc_txn : Option Env → World → (Status × Option Txn) × World
  pub alloc_stmt : Option Env → World → (Status × Option Stmt) × World
  pub free_stmt : Option Stmt → World → World
  pub server_attach : Option Srv → Option Err → Text → World → Status × World
  pub server_detach : Option Srv → Option Err → World → World
  pub set_server : Option Svc → Option Srv → Option Err → World → Status × World
  pub set_session : Option Svc → Option Usr → Option Err → World → Status × World
  pub set_transaction : Option Svc → Option Txn → Option Err → World → Status × World
  pub set_username : Option Usr → Text → Option Err → World → Status × World
  pub set_password : Option Usr → Text → Option Err → World → Status × World
  -- With OCI_SYSDBA or without.
  pub session_begin : Option Svc → Option Err → Option Usr → Bool → World → Status × World
  pub session_end : Option Svc → Option Err → Option Usr → World → World
  pub ping : Option Svc → Option Err → World → Status × World
  pub trans_start : Option Svc → Option Err → ℕ → Isolation → World → Status × World
  pub trans_commit : Option Svc → Option Err → World → Status × World
  pub trans_rollback : Option Svc → Option Err → World → Status × World
  pub stmt_prepare : Option Stmt → Option Err → Text → World → Status × World
  -- With one iteration or none: the status, and how many rounds the watchdog made meanwhile.
  pub stmt_execute : Option Svc → Option Stmt → Option Err → ℕ → World → (Status × ℕ) × World
  pub stmt_fetch :
      Option Stmt
      → Option Err
      → List (Column Lob Date)
      → World
      → (Status × List (Column Lob Date)) × World
  pub row_count : Option Stmt → Option Err → World → Status × ℕ
  pub bind_count : Option Stmt → Option Err → World → Status × ℕ
  pub column_count : Option Stmt → Option Err → World → Status × ℕ
  pub set_prefetch_rows : Option Stmt → ℤ → Option Err → World → Status × World
  pub bind_by_pos : Option Stmt → Option Err → ℤ → Bound Number Date Double → World → Status × World
  pub param_get : Option Stmt → Option Err → ℤ → World → (Status × Option Parameter) × World
  pub free_param : Option Parameter → World → World
  pub data_size : Option Parameter → Option Err → World → Status × ℕ
  pub data_type : Option Parameter → Option Err → World → ColumnType
  pub column_name : Option Parameter → Option Err → World → Status × Text
  pub char_used : Option Parameter → Option Err → World → Status × ℕ
  pub char_size : Option Parameter → Option Err → World → Status × ℕ
  pub to_lower : Option Env → Text → World → Text
  pub define_by_pos : Option Stmt → Option Err → ℕ → Column Lob Date → ℕ → World → Status × World
  pub alloc_lob : Option Env → World → (Status × Option Lob) × World
  pub alloc_date : Option Env → World → (Status × Option Date) × World
  pub free_lob : Option Lob → World → World
  pub free_date : Option Date → World → World
  -- The bytes that are put where the call says there is room.
  pub lob_read :
      Option Svc → Option Err → Option Lob → ℕ → Piece → World → (Status × List ℕ) × World
  pub date_to_text :
      Option Usr → Option Err → Option Date → List ℕ → World → (Status × List ℕ × ℕ) × World
  pub number_from_int : Option Err → ℤ → Status × Number
  pub date_construct : Option Usr → Option Err → Option Date → Tm → World → World
  -- The status, and whether the date is found valid.
  pub date_check : Option Usr → Option Err → Option Date → World → Status × Bool
  pub gmtime : ℤ → Tm
  pub print_int : ℤ → Text
  -- What `malloc` leaves in the thread's buffer, and in a cell.
  pub junk_text : Text
  pub junk : ℕ

-- The message of a status; where it takes the text of a buffer, the two texts are what OCIErrorGet writes
-- there and what is there.
unfoldable pub message : Status → Text → Text → Text
message Status.success got old = []
message Status.success_with_info got old = lit "Info - OCI_SUCCESS_WITH_INFO"
message Status.need_data got old = lit "Error - OCI_NEED_DATA"
message Status.no_data got old = lit "Error - OCI_NODATA"
message Status.error got old = got
message Status.invalid_handle got old = lit "Error - OCI_INVALID_HANDLE"
message Status.still_executing got old = lit "Error - OCI_STILL_EXECUTE"
message Status.continue got old = lit "Error - OCI_CONTINUE"
message (Status.other n) got old = old

-- What is in the buffer then.
unfoldable pub error_buffer : Status → Text → Text → Text
error_buffer Status.error got old = got
error_buffer status got old = old

module _ (q : Oci) where
  -- `get_err_buffer`
  unfoldable pub get_err_buffer : q.World → Text × q.World
  get_err_buffer w = elim (q.thread_buffer w) [
    | some t ↦ (t, w)
    | none ↦ (q.junk_text, q.set_thread_buffer q.junk_text w)
  ]

  -- `OraclePreparedStatement_getLastError`
  unfoldable pub get_last_error : Status → Option q.Err → q.World → Text × q.World
  unfolding get_err_buffer error_buffer message
  get_last_error status e w =
      let (old, w') = get_err_buffer w in
      let got = q.error_get e 256 w' in
      let kept : q.World = elim status [ Status.error ↦ q.set_thread_buffer got w' | _ ↦ w' ] in
      (message status got old, kept)
