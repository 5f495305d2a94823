-- ===== src/Codec.antt =====
-- The text encodings that the providers of crates/quickmaild/src/providers share: those of the
-- standard library (numbers in decimal, UTF-8, splitting) and those that the providers write out.
pub mod Chars
pub mod Decimal
pub mod Split
pub mod Utf8
pub mod Hex
pub mod Base64
