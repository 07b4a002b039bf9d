-- ===== src/Grammar/Keeps.antt =====
-- Proofs that the grammar (crates/ra_syntax/src/grammar/) works through the parser as it should.
pub mod Facts
pub mod Rules
pub mod Loops
pub mod Ops
pub mod Markers
pub mod Calls
pub mod Operators
pub mod Entries
pub mod Auto
pub mod Names
pub mod Heads
pub mod Attributes
pub mod TypeArgs
pub mod Params
pub mod Paths
pub mod TypeParams
pub mod WhereClauses
pub mod Types
pub mod Patterns
pub mod Exprs
pub mod Atoms
pub mod MatchArms
pub mod Expressions
pub mod Items
pub mod UseItems
pub mod Nominal
pub mod Traits
pub mod MaybeItems
pub mod Contents
pub mod Blocks
pub mod Knot
