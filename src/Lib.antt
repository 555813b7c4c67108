-- ===== src/Lib.antt =====
-- libzdb, a library in C that pools connections to SQL databases behind one interface.
--
-- The parts, and the files that model them:
-- * db/ConnectionPool.c is Db/ConnectionPool. A pool is the record of `struct ConnectionPool_S`; its
--   vector is the list of its contents and holds the connections themselves, so that an address (the
--   field `id`) stands for a pointer. `get_connection` is `_getConnection`, with its loop in
--   `acquire`, `reap` is the loop of `_reapConnections`, and the other functions have the names of the
--   C functions. Rounds, Acquiring, Returning, Reaping, Filling and LifeCycle hold the proofs, Members
--   what they say of lists of connections. In these a call is not interrupted.
--   Db/ConnectionPool/Threads has the calls that get and return a connection, and the sweeps of the
--   reaper (`_doSweep`), as steps that interleave; Counting, Effects, Giving, Ownership and Growth are
--   about what they keep, and Sequential about the steps of one call with nothing between them.
-- * db/Connection.c is Db/Connection: making, clearing, transactions and statements.
-- * db/PreparedStatement.c and db/ResultSet.c are Db/PreparedStatement and Db/ResultSet.
-- * db/ConnectionDelegate.h, db/PreparedStatementDelegate.h and db/ResultSetDelegate.h are
--   Db/Delegate: the tables of functions that a driver fills in are records, and the state that a
--   driver works on is the type `World`, of which nothing is assumed. A driver's calls may fail or
--   throw, making a connection included; a start out of which a driver throws leaves the pool locked.
-- * db/sqlite is Db/Sqlite: the retries of SQLiteAdapter.c, and the three delegates as Session (a
--   connection), Prepared and Rows. The functions of sqlite3 are fields of a record.
-- * db/postgresql is Db/Postgresql: the three delegates in the same way, and Bytea, which unescapes
--   binary values in place, with the formats that the server writes in Bytea/Hex and Bytea/Escape.
-- * db/mysql is Db/Mysql: the three delegates in the same way, with what a result set keeps in
--   Rows/Room and Rows/Limit.
-- * db/oracle is Db/Oracle: the three delegates in the same way, with Columns for how a result set is
--   made, Watchdog for the thread that breaks off a statement, with its rounds in Watchdog/Once, and the
--   loop that reads a large object in Rows/Lob. Connecting makes the connection, and Session/Handles,
--   with Columns/Counting, counts the statement handles.
-- * zdbpp.h is Zdbpp: Wrapper has the macro that turns exceptions of the library into those of C++, on
--   the stack of frames, and the other files the classes, over the models of the functions in C that
--   these call. An object is what its pointer points to, but that of a connection, which is an address
--   of the pool or nothing.
-- * exceptions is Exceptions: the stack of frames of Exception.c and the blocks that the macros of
--   Exception.h make are a small language, whose Meaning knows no frames; Documented compares it with
--   what Exception.h says of FINALLY. In the other files a function that may throw returns a result.
-- * util/Vector.c, util/Str.c and util/StringBuffer.c are Util/Vector, Util/Str and Util/StringBuffer,
--   and net/URL.re is Net/Url, with the rules of its scanner in Net/Url/Scanner, and where it finds a
--   protocol in Scanner/Protocol. These work on cells: an array or a buffer is the list of its cells,
--   used or not.
-- * system/System.c and system/Mem.c are System and System/Memory.
-- * Prelude has the native numbers, lists, integers and the outcome of a function that may throw, and
--   Db/Stub a driver to try the theorems with.
-- All of these paths start at src in the repository.
--
-- A client gets a connection from the pool, which looks for one that is available and answers a
-- ping, else makes one with the driver that serves the protocol of the URL. The connection hands
-- statements to its driver, keeps what these leave open and frees it when it is cleared, which the
-- pool does as it takes the connection back. The string buffer rewrites the parameters of a
-- statement for two of the drivers.
--
-- A function takes the state that it changes and returns it with its outcome; an exception is a
-- value, and what was done before it stays done. The loops run on the rounds that they can need:
-- `acquire` on the number of connections that are available, `fill` on the initial number, the
-- retries of SQLite on the ten that the source has, closing a SQLite database on more than the calls
-- that find it busy, `append_loop` of the string buffer on two, since the second time the text fits,
-- and `prepare_loop` on a round for each cell that the numbered statement needs, and the two loops
-- of `unescape_bytea` on a round for each cell of the value, and `read_loop` of Oracle on a round for
-- each piece that the client library gives; the scanner of URLs has a round for each byte and one
-- more. C ints are unbounded numbers but where the code depends on their width: the stamp of a vector,
-- the result of `Str_parseInt`, the size of a large object of Oracle, and what is bound from C++.
--
-- Parameters: `printf` by its output, `strtod`, the rounding of 1.618 * n, the value of a cell that
-- nobody has written, the addresses that `malloc` gives (some theorems want them to be unused), the
-- parsers of times, and the client libraries of the databases.
--
-- Not modelled: starting, stopping or freeing a pool while other calls run, calls of a pool whose
-- mutex stays locked, which wait for ever, and when the reaper wakes; what the watchdog of Oracle
-- does between the two halves of one of its rounds; SQLite with unlock notification; the scanner
-- of times that re2c generates; failures of malloc outside of System/Memory; where a function goes
-- on after a handler of aborts; of the interface for C++ the class URL and moves of objects.
pub mod Prelude
pub mod Util
pub mod Net
pub mod System
pub mod Exceptions
pub mod Db
pub mod Zdbpp
