-- ===== src/Lexer/Tokenize.antt =====
-- crates/ra_syntax/src/lexer.rs: breaking a text up into tokens. A result of `none` is a panic.
pub mod Lossless
pub mod Kinds
use rust_analyzer.Base.{
  ℕ, ◌+◌, ◌-◌, zero, suc, Bool, true, false, ◌&&◌, ◌||◌, not, List, [], ◌∷◌, ◌++◌, Option, none,
  some, ◌==◌, if◌then◌else◌, length, ◌>>=◌,
}
use rust_analyzer.Base.Str.{slice_from}
use rust_analyzer.Base.Loop.{Flow, again, stop, loop}
use rust_analyzer.SyntaxKind
use rust_analyzer.SyntaxKind.{SyntaxKind}
use rust_analyzer.SyntaxKind.Text.{from_keyword, from_char}
use rust_analyzer.Lexer.Classes.{
  UnicodeXid, is_whitespace, is_dec_digit, is_ident_start, is_ident_continue,
}
use rust_analyzer.Lexer.Ptr
use rust_analyzer.Lexer.Ptr.{
  Ptr, current, nth, at, at_p, at_str, holds_of, bump, bump_while, into_len, current_token_text,
}
use rust_analyzer.Lexer.Comments.{scan_shebang, scan_comment}
use rust_analyzer.Lexer.Numbers.{scan_number}
use rust_analyzer.Lexer.Strings.{
  is_string_literal_start, scan_char, scan_string, scan_raw_string, scan_byte_char_or_string,
}
use rust_analyzer.Lexer.Scan.{next_token_inner}

pub record Token : Type 0 where
  pub kind : SyntaxKind
  pub len : ℕ

abbrev pub to_token : SyntaxKind × Ptr → Token
to_token (kind, ptr) = record { kind = kind; len = into_len ptr }

abbrev pub push_slice :
    List Token → Token → Option (List ℕ) → Flow (List ℕ × List Token) (Option (List Token))
push_slice acc token none = stop none
push_slice acc token (some text) = again (text, acc ++ token ∷ [])

abbrev pub push_token :
    List Token → List ℕ → Option Token → Flow (List ℕ × List Token) (Option (List Token))
push_token acc text none = stop none
push_token acc text (some token) = push_slice acc token (slice_from text token.len)

module _ (xid : UnicodeXid) where
  -- The assertion and the `unwrap` fail on the empty text.
  unfoldable pub next_token : List ℕ → Option Token
  unfolding next_token_inner
  next_token text = do
    c ← current (Ptr.new text)
    r ← next_token_inner xid c (bump (Ptr.new text))
    some (to_token r)

  -- One round of `while !text.is_empty()`.
  unfoldable pub tokenize_round :
      List ℕ × List Token → Flow (List ℕ × List Token) (Option (List Token))
  tokenize_round ([], acc) = stop (some acc)
  tokenize_round (c ∷ text, acc) = push_token acc (c ∷ text) (next_token (c ∷ text))

  unfoldable pub tokenize : List ℕ → Option (List Token)
  unfolding tokenize_round
  tokenize text = loop (λ (t, acc). length t) tokenize_round (λ s. none) (text, [])
