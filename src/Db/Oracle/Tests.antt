-- ===== src/Db/Oracle/Tests.antt =====
-- The theorems about the driver for Oracle, with a client library whose world counts the statement handles
-- and gives a large object in two pieces.
use libzdb.Prelude.{
  ℕ, suc, ◌+◌, ◌-◌, ◌*◌, ◌≤◌, ◌<◌, ◌≡◌, refl, true, false, List, [], ◌∷◌, Option, some, none, arith,
  if◌then◌else◌,
}
use libzdb.Prelude.Int.{pos}
use libzdb.Util.Str.{lit}
use libzdb.Db.Delegate.{Tm}
use libzdb.Db.Oracle.Adapter.{Oci, Status, Column, ColumnType, Piece, is_fine, is_need_data}
use libzdb.Db.Oracle.Watchdog.{Timer, rounds, arm}
use libzdb.Db.Oracle.Watchdog.Once.{Broke, rounds-arm}
use libzdb.Db.Oracle.Columns.{Rows}
use libzdb.Db.Oracle.Rows.{get_blob}
use libzdb.Db.Oracle.Rows.Lob.{Delivers, last, more, Returns, get_blob-Delivers}
use libzdb.Db.Oracle.Connecting.{Session}
use libzdb.Db.Oracle.Session.{execute_trimmed, query_trimmed}
use libzdb.Db.Oracle.Columns.Counting.{Counted}
use libzdb.Db.Oracle.Session.Handles.{Balanced, execute_trimmed-query_trimmed}

abbrev epoch : Tm
epoch = record {
  year = pos 70;
  month = pos 0;
  day = pos 1;
  hour = pos 0;
  minute = pos 0;
  second = pos 0;
}

abbrev piece_of : Piece → Status × List ℕ
piece_of Piece.first_piece = (Status.need_data, 1 ∷ 2 ∷ [])
piece_of Piece.next_piece = (Status.success, 3 ∷ [])

abbrev fine : ℕ → Status × ℕ
fine w = (Status.success, w)

abbrev client : Oci
client = record {
  World = ℕ;
  Env = Unit {0};
  Err = Unit {0};
  Srv = Unit {0};
  Svc = Unit {0};
  Usr = Unit {0};
  Txn = Unit {0};
  Stmt = Unit {0};
  Parameter = Unit {0};
  Lob = Unit {0};
  Date = Unit {0};
  Number = ℕ;
  Double = ℕ;
  Thread = Unit {0};
  error_get = λ e n w. lit "ORA-00942";
  thread_buffer = λ w. some [];
  set_thread_buffer = λ t w. w;
  thread_create = λ w. (tt, w);
  thread_join = λ t w. w;
  env_create = λ w. ((false, some tt), w);
  env_free = λ e w. w;
  alloc_err = λ e w. ((Status.success, some tt), w);
  alloc_srv = λ e w. ((Status.success, some tt), w);
  alloc_svc = λ e w. ((Status.success, some tt), w);
  alloc_usr = λ e w. ((Status.success, some tt), w);
  alloc_txn = λ e w. ((Status.success, some tt), w);
  alloc_stmt = λ e w. ((Status.success, some tt), suc w);
  free_stmt = λ s w. w - 1;
  server_attach = λ s e t w. fine w;
  server_detach = λ s e w. w;
  set_server = λ v s e w. fine w;
  set_session = λ v u e w. fine w;
  set_transaction = λ v t e w. fine w;
  set_username = λ u t e w. fine w;
  set_password = λ u t e w. fine w;
  session_begin = λ v e u b w. fine w;
  session_end = λ v e u w. w;
  ping = λ v e w. fine w;
  trans_start = λ v e n i w. fine w;
  trans_commit = λ v e w. fine w;
  trans_rollback = λ v e w. fine w;
  stmt_prepare = λ s e t w. fine w;
  stmt_execute = λ v s e n w. ((Status.error, 4), w);
  stmt_fetch = λ s e cs w. ((Status.success, cs), w);
  row_count = λ s e w. (Status.success, 1);
  bind_count = λ s e w. (Status.success, 1);
  column_count = λ s e w. (Status.success, 1);
  set_prefetch_rows = λ s n e w. fine w;
  bind_by_pos = λ s e i b w. fine w;
  param_get = λ s e i w. ((Status.success, some tt), w);
  free_param = λ p w. w;
  data_size = λ p e w. (Status.success, 20);
  data_type = λ p e w. ColumnType.blob;
  column_name = λ p e w. (Status.success, lit "ID");
  char_used = λ p e w. (Status.success, 0);
  char_size = λ p e w. (Status.success, 20);
  to_lower = λ e t w. lit "id";
  define_by_pos = λ s e i c n w. fine w;
  alloc_lob = λ e w. ((Status.success, some tt), w);
  alloc_date = λ e w. ((Status.success, some tt), w);
  free_lob = λ l w. w;
  free_date = λ d w. w;
  lob_read = λ v e l n p w. (piece_of p, w);
  date_to_text = λ u e d cells w. ((Status.success, cells, 19), w);
  number_from_int = λ e n. (Status.success, 0);
  date_construct = λ u e d t w. w;
  date_check = λ u e d w. (Status.success, true);
  gmtime = λ n. epoch;
  print_int = λ n. lit "7";
  junk_text = [];
  junk = 0;
}

client_allocates :
    (e : Option (Unit {0})) (w : ℕ)
    → suc w ≡ (if is_fine (client.alloc_stmt e w).0.0 then suc w else w)
unfolding is_fine
client_allocates e w = refl

abbrev client_counts : Counted client
client_counts = record {
  live = λ w. w;
  alloc_live = client_allocates;
  free_live = λ s w. refl;
  prepare_live = λ s e t w. refl;
  execute_live = λ v s e n w. refl;
  prefetch_live = λ s n e w. refl;
  param_live = λ s e i w. refl;
  free_param_live = λ p w. refl;
  define_live = λ s e i d n w. refl;
  lob_live = λ e w. refl;
  date_live = λ e w. refl;
  buffer_live = λ t w. refl;
}

abbrev quarter_second : Timer
quarter_second = record { timeout = pos 25; countdown = pos 0; running = false }

rounds-arm_example :
    (4 * 10 < 25 + 10 → Broke 0 true (rounds 4 (arm quarter_second)))
    × (25 + 10 ≤ 4 * 10 → Broke 1 false (rounds 4 (arm quarter_second)))
rounds-arm_example = rounds-arm 4 25 quarter_second refl (omega arith)

abbrev lob_column : Column (Unit {0}) (Unit {0})
lob_column = record {
  is_null = false;
  buffer = none;
  name = none;
  length = 20;
  lob_loc = some tt;
  date = none;
}

abbrev rows : Rows client
rows = record {
  current_row = pos 1;
  fetch_size = pos 100;
  max_rows = 0;
  stmt = some tt;
  env = some tt;
  usr = some tt;
  err = some tt;
  svc = some tt;
  columns = lob_column ∷ [];
  last_error = Status.success;
  free_statement = true;
}

two_pieces : Delivers client rows (some tt) 1 Piece.first_piece 5 (1 ∷ 2 ∷ 3 ∷ []) Status.success 5
unfolding is_need_data
two_pieces =
    more (1 ∷ 2 ∷ []) 5 refl (omega arith) (last (3 ∷ []) Status.success 5 refl (omega arith) refl)

get_blob-Delivers_example :
    Returns client rows 0 (1 ∷ 2 ∷ 3 ∷ []) Status.success 5 (get_blob client 2 rows (pos 1) 5)
unfolding is_fine
get_blob-Delivers_example =
    get_blob-Delivers client rows 0 1 2 5 5 (1 ∷ 2 ∷ 3 ∷ []) Status.success (omega arith) refl
      two_pieces refl (omega arith)

abbrev session : Session client
session = record {
  env = some tt;
  err = some tt;
  svc = some tt;
  usr = some tt;
  srv = some tt;
  txnhp = none;
  erb = [];
  timer = quarter_second;
  last_error = Status.success;
  rows_changed = 0;
  watchdog = some tt;
}

execute_trimmed-query_trimmed_example :
    ((execute_trimmed client session (lit "drop table t") 6).2 ≡ 6)
    × Balanced client client_counts 6
        (query_trimmed client (pos 0) (pos 100) session (lit "drop table t") 6)
execute_trimmed-query_trimmed_example =
    execute_trimmed-query_trimmed client client_counts (pos 0) (pos 100) session
      (lit "drop table t") 6
