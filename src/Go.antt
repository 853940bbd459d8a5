-- ===== src/Go.antt =====
-- Functions of Go's standard library that the code calls, on a string as its code points.
pub mod Strconv
pub mod Strings
pub mod Hex
pub mod Bytes
