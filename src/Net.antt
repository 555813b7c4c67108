-- ===== src/Net.antt =====
-- src/net: the URL that names a database.
pub mod Url
