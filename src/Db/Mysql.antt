-- ===== src/Db/Mysql.antt =====
-- src/db/mysql: the driver for MySQL. The functions of its client library that it calls are parameters.
pub mod Adapter
pub mod Rows
pub mod Prepared
pub mod Session
mod Tests
