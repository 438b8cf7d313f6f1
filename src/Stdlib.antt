-- ===== src/Stdlib.antt =====
-- What the program uses of Go's standard library: text as UTF-8, hexadecimal, byte orders, readers.
pub mod Utf8
pub mod Hex
pub mod Text
pub mod Endian
pub mod Strings
pub mod Trim
