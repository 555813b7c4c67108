-- ===== src/Db/Oracle.antt =====
-- src/db/oracle: the driver for Oracle. The functions of its client library that it calls are parameters.
pub mod Adapter
pub mod Watchdog
pub mod Columns
pub mod Rows
pub mod Prepared
pub mod Connecting
pub mod Session
mod Tests
