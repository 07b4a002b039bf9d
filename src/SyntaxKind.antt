-- ===== src/SyntaxKind.antt =====
-- crates/ra_syntax/src/syntax_kinds.rs and syntax_kinds/generated.rs: the kinds of tokens and nodes.
-- A kind is its discriminant, the number that `kind as usize` gives: `TokenSet` shifts by it. The
-- generated enumeration is spread over five children; MODULE is spelled `module_node` here.
mod Base
pub mod Text
pub mod Info
pub mod IsKeyword
pub mod Reserved
mod Punctuation
mod Keywords
mod Literals
mod ItemNodes
mod PartNodes
pub use Base.*
pub use Punctuation.*
pub use Keywords.*
pub use Literals.*
pub use ItemNodes.*
pub use PartNodes.*
use rust_analyzer.Base.{Bool, ◌||◌, ◌==◌}

-- SyntaxKind::is_trivia
abbrev pub is_trivia : SyntaxKind → Bool
is_trivia kind = kind == whitespace || kind == comment
