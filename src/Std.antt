-- ===== src/Std.antt =====
-- What the code calls of Go's standard library: strconv, strings.
pub mod Strconv
pub mod Strings
pub mod Url
pub mod Utf8
pub mod Maps
