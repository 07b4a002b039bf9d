-- ===== src/Grammar.antt =====
-- The grammar of Rust: crates/ra_syntax/src/grammar.rs and grammar/.
pub mod Monad
pub mod Ops
pub mod Entries
pub mod Keeps
pub mod Names
pub mod Sets
pub mod Heads
pub mod Attributes
pub mod TypeArgs
pub mod Params
pub mod Paths
pub mod TypeParams
pub mod WhereClauses
pub mod Types
pub mod Patterns
pub mod Exprs
pub mod Atoms
pub mod MatchArms
pub mod Expressions
pub mod Items
pub mod UseItems
pub mod Nominal
pub mod Traits
pub mod MaybeItems
pub mod Contents
pub mod Blocks
pub mod Knot
pub mod Lossless
pub mod AtEof
pub mod Tests
