-- ===== src/Util.antt =====
-- src/util: the containers and the string functions that the rest of the library stands on.
pub mod Vector
pub mod Ctype
pub mod Str
pub mod StringBuffer
