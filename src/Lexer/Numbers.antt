-- ===== src/Lexer/Numbers.antt =====
-- crates/ra_syntax/src/lexer/numbers.rs
pub mod Within
use rust_analyzer.Base.{
  ℕ, Bool, true, false, ◌&&◌, ◌||◌, not, [], ◌∷◌, Option, none, some, leb, ◌==◌, if◌then◌else◌,
}
use rust_analyzer.Base.Loop.{Flow, again, stop, loop}
use rust_analyzer.SyntaxKind.{SyntaxKind, int_number, float_number}
use rust_analyzer.Lexer.Classes.{UnicodeXid, is_dec_digit, is_ident_start}
use rust_analyzer.Lexer.Ptr.{Ptr, current, at, at_str, nth_is_p, bump, left, while_some}

scan_digits_round : Bool → Ptr → Flow Ptr Ptr
scan_digits_round allow_hex ptr = while_some (current ptr) ptr λ c.
    if c == b'_' || is_dec_digit c
    then again (bump ptr)
    else if ((leb b'a' c && leb c b'f') || (leb b'A' c && leb c b'F')) && allow_hex
    then again (bump ptr)
    else stop ptr

unfoldable pub scan_digits : Ptr → Bool → Ptr
unfolding scan_digits_round
scan_digits ptr allow_hex = loop left (scan_digits_round allow_hex) (λ p. p) ptr

unfoldable pub scan_float_exponent : Ptr → Ptr
scan_float_exponent ptr =
    if at ptr b'e' || at ptr b'E'
    then (let p = bump ptr in scan_digits (if at p b'-' || at p b'+' then bump p else p) false)
    else ptr

-- `Option::unwrap_or('\0')`
abbrev unwrap_or_nul : Option ℕ → ℕ
unwrap_or_nul none = 0
unwrap_or_nul (some c) = c

-- The digits before a point or exponent; `none` is the early return of a lone zero.
unfoldable pub scan_integer_part : ℕ → Ptr → Option Ptr
scan_integer_part c ptr =
    if c == b'0'
    then (let d = unwrap_or_nul (current ptr) in
        if d == b'b' || d == b'o'
        then some (scan_digits (bump ptr) false)
        else if d == b'x'
        then some (scan_digits (bump ptr) true)
        else if is_dec_digit d || d == b'_' || d == b'.' || d == b'e' || d == b'E'
        then some (scan_digits ptr true)
        else none)
    else some (scan_digits ptr false)

module _ (xid : UnicodeXid) where
  unfoldable pub scan_fraction : Ptr → SyntaxKind × Ptr
  scan_fraction ptr =
      if at ptr b'.' && not (at_str ptr (b'.' ∷ b'.' ∷ []) || nth_is_p ptr 1 (is_ident_start xid))
      then (float_number, scan_float_exponent (scan_digits (bump ptr) false))
      else if at ptr b'e' || at ptr b'E'
      then (float_number, scan_float_exponent ptr)
      else (int_number, ptr)

  unfoldable pub scan_number : ℕ → Ptr → SyntaxKind × Ptr
  scan_number c ptr = elim (scan_integer_part c ptr) [
    | none ↦ (int_number, ptr)
    | some p ↦ scan_fraction p
  ]
