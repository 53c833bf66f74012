-- ===== src/Format.antt =====
-- src/format.rs: hexadecimal text and the reader of binary input.
pub mod Hex
pub mod Reader
pub mod Lines
