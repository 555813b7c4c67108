-- ===== src/Db.antt =====
-- src/db: connections, statements, result sets and the pool.
pub mod Delegate
pub mod ResultSet
pub mod PreparedStatement
pub mod Connection
pub mod ConnectionPool
pub mod Sqlite
pub mod Postgresql
pub mod Mysql
pub mod Oracle
pub mod Stub
