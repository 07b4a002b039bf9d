-- ===== src/TokenSet.antt =====
-- crates/ra_syntax/src/token_set.rs: sets of token kinds as the bits of a u128.
pub mod Members
use Prim.Native.Nat.{bit_and, bit_or}
use rust_analyzer.Base.{ℕ, ◌%◌, ◌^◌, Bool, List, [], ◌∷◌, not, ◌==◌}
use rust_analyzer.SyntaxKind.{SyntaxKind}

pub record TokenSet : Type 0 where
  pub bits : ℕ

-- `1u128 << (kind as usize)`: a shift takes its amount modulo the width.
unfoldable pub mask : SyntaxKind → ℕ
mask kind = 2 ^ (kind % 128)

-- TokenSet::EMPTY
abbrev pub empty : TokenSet
empty = record { bits = 0 }

-- TokenSet::contains
unfoldable pub contains : TokenSet → SyntaxKind → Bool
unfolding mask
contains ts kind = not (bit_and ts.bits (mask kind) == 0)

-- The macro `token_set!`.
unfoldable pub token_set : List SyntaxKind → TokenSet
unfolding mask
token_set [] = record { bits = 0 }
token_set (t ∷ ts) = record { bits = bit_or (mask t) (token_set ts).bits }

-- The macro `token_set_union!`.
unfoldable pub token_set_union : List TokenSet → TokenSet
token_set_union [] = record { bits = 0 }
token_set_union (t ∷ ts) = record { bits = bit_or t.bits (token_set_union ts).bits }
