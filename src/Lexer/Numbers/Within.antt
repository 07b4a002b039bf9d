-- ===== src/Lexer/Numbers/Within.antt =====
-- The scanners of crates/ra_syntax/src/lexer/numbers.rs stay within their text.
use rust_analyzer.Base.{ℕ, List, Bool, true, false, if◌then◌else◌, none, some, Option}
use rust_analyzer.SyntaxKind.{SyntaxKind, int_number}
use rust_analyzer.Lexer.Classes.{UnicodeXid}
use rust_analyzer.Lexer.Ptr.{Ptr}
use rust_analyzer.Lexer.Ptr.Within.{Within, Within-loop, scan_rules}
use rust_analyzer.Lexer.Numbers.{
  scan_digits, scan_float_exponent, scan_integer_part, scan_fraction, scan_number,
}

abbrev WithinOption : List ℕ → ℕ → Option Ptr → Type 0
WithinOption text n none = Unit {0}
WithinOption text n (some p) = Within text n p

WithinOption-if :
    (text : List ℕ) (n : ℕ) (b : Bool) (x y : Option Ptr)
    → WithinOption text n x
    → WithinOption text n y
    → WithinOption text n (if b then x else y)
WithinOption-if text n true x y wx wy = wx
WithinOption-if text n false x y wx wy = wy

module _ {text : List ℕ} {n : ℕ} where
  pub Within-scan_digits :
      (ptr : Ptr) (allow_hex : Bool) → Within text n ptr → Within text n (scan_digits ptr allow_hex)
  unfolding scan_digits
  Within-scan_digits ptr allow_hex =
      Within-loop {pos = λ p. p} {end = λ p. p} _ _ (λ s text n w. search scan_rules) ptr

  Within-scan_float_exponent :
      (ptr : Ptr) → Within text n ptr → Within text n (scan_float_exponent ptr)
  unfolding scan_float_exponent
  Within-scan_float_exponent ptr w = search (scan_rules, Within-scan_digits)

  Within-scan_integer_part :
      (c : ℕ) (ptr : Ptr) → Within text n ptr → WithinOption text n (scan_integer_part c ptr)
  unfolding scan_integer_part
  Within-scan_integer_part c ptr w = search (scan_rules, Within-scan_digits, WithinOption-if)

  module _ (xid : UnicodeXid) where
    Within-scan_fraction : (ptr : Ptr) → Within text n ptr → Within text n (scan_fraction xid ptr).1
    unfolding scan_fraction
    Within-scan_fraction ptr w = search (scan_rules, Within-scan_digits, Within-scan_float_exponent)

    pub Within-scan_number :
        (c : ℕ) (ptr : Ptr) → Within text n ptr → Within text n (scan_number xid c ptr).1
    unfolding scan_number
    Within-scan_number c ptr w = go (scan_integer_part c ptr) (Within-scan_integer_part c ptr w)
      where
        go :
            (o : Option Ptr)
            → WithinOption text n o
            → Within text n
                (let r : SyntaxKind × Ptr = elim o [
                  | none ↦ (int_number, ptr)
                  | some p ↦ scan_fraction xid p
                ] in
                  r).1
        go none h = w
        go (some p) h = Within-scan_fraction p h
