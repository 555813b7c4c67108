-- ===== src/Db/Sqlite.antt =====
-- src/db/sqlite: the driver for SQLite. The functions of sqlite3 that it calls are parameters.
pub mod Adapter
pub mod Rows
pub mod Prepared
pub mod Session
mod Tests
