-- ===== src/StringLexing.antt =====
-- crates/ra_syntax/src/string_lexing: the components of character and string literals.
pub mod Components
