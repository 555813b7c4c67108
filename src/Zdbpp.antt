-- ===== src/Zdbpp.antt =====
-- src/zdbpp.h: the interface for C++.
pub mod Wrapper
pub mod ResultSet
pub mod PreparedStatement
pub mod Connection
pub mod ConnectionPool
pub mod Version
mod Tests
