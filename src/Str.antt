-- ===== src/Str.antt =====
-- src/string/string.c: the block operations on memory and the operations on strings.
pub mod Mem
pub mod Text
pub mod Number
mod Tests
