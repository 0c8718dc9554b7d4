-- ===== src/Rust.antt =====
-- The parts of Rust's standard library that the program computes with: paths, text and integers.
pub mod Bytes
pub mod Path
pub mod Int
pub mod Utf8
pub mod Words
