-- ===== src/Db/Postgresql.antt =====
-- src/db/postgresql: the driver for PostgreSQL. The functions of libpq that it calls are parameters.
pub mod Adapter
pub mod Bytea
pub mod Rows
pub mod Prepared
pub mod Session
mod Tests
