-- ===== src/Lexer/Classes.antt =====
-- crates/ra_syntax/src/lexer/classes.rs, with the character functions that it calls.
use rust_analyzer.Base.{ℕ, Bool, ◌&&◌, ◌||◌, ltb, leb, ◌==◌}

-- The tables of the crate unicode_xid, which the program does not contain.
pub record UnicodeXid : Type 0 where
  pub is_xid_start : ℕ → Bool
  pub is_xid_continue : ℕ → Bool

-- `char::is_whitespace` of the standard library: the characters with the property White_Space.
abbrev pub is_whitespace : ℕ → Bool
is_whitespace c =
    c == 32
    || (leb 9 c && leb c 13)
    || c == 0x85
    || c == 0xA0
    || c == 0x1680
    || (leb 0x2000 c && leb c 0x200A)
    || c == 0x2028
    || c == 0x2029
    || c == 0x202F
    || c == 0x205F
    || c == 0x3000

abbrev pub is_dec_digit : ℕ → Bool
is_dec_digit c = leb b'0' c && leb c b'9'

module _ (xid : UnicodeXid) where
  unfoldable pub is_ident_start : ℕ → Bool
  is_ident_start c =
      (leb b'a' c && leb c b'z')
      || (leb b'A' c && leb c b'Z')
      || c == b'_'
      || (ltb 0x7F c && xid.is_xid_start c)

  unfoldable pub is_ident_continue : ℕ → Bool
  is_ident_continue c =
      (leb b'a' c && leb c b'z')
      || (leb b'A' c && leb c b'Z')
      || (leb b'0' c && leb c b'9')
      || c == b'_'
      || (ltb 0x7F c && xid.is_xid_continue c)
