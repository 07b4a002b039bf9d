-- ===== src/TokenSet/Members.antt =====
-- Membership in the sets of crates/ra_syntax/src/token_set.rs, against lists of kinds.
use Prim.Native.Nat.{bit_or}
use native.Mathlib.Nat.{mod-eq_of_lt}
use rust_analyzer.Base.{ℕ, ◌%◌, ◌<◌, ◌≡◌, inl, inr, Bool, false, ◌||◌, List, [], ◌∷◌, arith, ◌==◌}
use rust_analyzer.Base.Bits.{
  bit, bit_zero, bit-bit_or, bit-pow_self, bit-pow_ne, bit_cases, bit_and-pow_ne, bit_and-pow_zero,
}
use rust_analyzer.SyntaxKind.{SyntaxKind}
use rust_analyzer.TokenSet.{TokenSet, mask, contains, token_set, token_set_union}

abbrev pub IsTokenKind : SyntaxKind → Type 0
IsTokenKind kind = kind < 128

abbrev pub All : List SyntaxKind → Type 0
All [] = Unit {0}
All (k ∷ ks) = IsTokenKind k × All ks

abbrev pub mem : SyntaxKind → List SyntaxKind → Bool
mem kind [] = false
mem kind (k ∷ ks) = k == kind || mem kind ks

abbrev pub any_contains : SyntaxKind → List TokenSet → Bool
any_contains kind [] = false
any_contains kind (t ∷ ts) = contains t kind || any_contains kind ts

-- The test reads one bit.
contains-bit : (b k : ℕ) → contains (record { bits = b }) k ≡ (bit b (k % 128) == 1)
unfolding contains
contains-bit b k = elim (bit_cases b (k % 128)) [
  | inl e ↦ ground (arith, e, bit_and-pow_zero (k % 128) b e)
  | inr e ↦ ground (arith, e, bit_and-pow_ne (k % 128) b e)
]

-- A union of words holds what one of them holds.
contains-bit_or :
    (a b : ℕ) (k : SyntaxKind)
    → contains (record { bits = bit_or a b }) k
      ≡ (contains (record { bits = a }) k || contains (record { bits = b }) k)
contains-bit_or a b k =
    rw (contains-bit, contains-bit, contains-bit)
      (ground (arith, bit-bit_or (k % 128) a b, bit_cases a (k % 128), bit_cases b (k % 128)))

contains-zero : (k : SyntaxKind) → contains (record { bits = 0 }) k ≡ false
contains-zero k = ground (arith, contains-bit 0 k, bit_zero (k % 128))

contains-mask :
    (j k : SyntaxKind)
    → IsTokenKind j
    → IsTokenKind k
    → contains (record { bits = mask j }) k ≡ (j == k)
unfolding mask
contains-mask j k hj hk = ground (
  arith,
  contains-bit (mask j) k,
  mod-eq_of_lt hj,
  mod-eq_of_lt hk,
  bit-pow_self j,
  bit-pow_ne j k,
)

-- A set built by `token_set!` from kinds below 128 contains a kind below 128 exactly if the kind is
-- listed.
pub contains-token_set :
    (ks : List SyntaxKind) (k : SyntaxKind)
    → All ks
    → IsTokenKind k
    → contains (token_set ks) k ≡ mem k ks
unfolding token_set
contains-token_set [] k h hk = contains-zero k
contains-token_set (j ∷ ks) k h hk =
    rw (contains-bit_or, contains-mask j k h.0 hk, contains-token_set ks k h.1 hk)

-- A set built by `token_set_union!` contains exactly the kinds that one of its sets contains.
pub contains-token_set_union :
    (ts : List TokenSet) (k : SyntaxKind) → contains (token_set_union ts) k ≡ any_contains k ts
unfolding token_set_union
contains-token_set_union [] k = contains-zero k
contains-token_set_union (t ∷ ts) k = rw (contains-bit_or, contains-token_set_union ts k)
