-- ===== src/Lexer.antt =====
-- crates/ra_syntax/src/lexer.rs and the modules below it.
pub mod Classes
pub mod Ptr
pub mod Comments
pub mod Numbers
pub mod Strings
pub mod Scan
pub mod Tokenize
