-- ===== src/Util.antt =====
-- src/common/util.c: words, lines and quotes of a buffer, and reads from a connection.
pub mod Word
pub mod Stream
pub mod Line
