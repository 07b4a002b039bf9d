-- ===== src/Lexer/Scan.antt =====
-- crates/ra_syntax/src/lexer.rs: scanning one token. A result of `none` is a panic.
pub mod Within
pub mod Kinds
use rust_analyzer.Base.{ℕ, Bool, true, ◌&&◌, not, [], ◌∷◌, Option, none, some, ◌==◌, if◌then◌else◌}
use rust_analyzer.SyntaxKind
use rust_analyzer.SyntaxKind.{SyntaxKind}
use rust_analyzer.SyntaxKind.Text.{from_keyword, from_char}
use rust_analyzer.Lexer.Classes.{
  UnicodeXid, is_whitespace, is_dec_digit, is_ident_start, is_ident_continue,
}
use rust_analyzer.Lexer.Ptr
use rust_analyzer.Lexer.Ptr.{
  Ptr, current, nth, at, at_p, at_str, holds_of, bump, bump_while, current_token_text,
}
use rust_analyzer.Lexer.Comments.{scan_shebang, scan_comment}
use rust_analyzer.Lexer.Numbers.{scan_number}
use rust_analyzer.Lexer.Strings.{
  is_string_literal_start, scan_char, scan_string, scan_raw_string, scan_byte_char_or_string,
}

abbrev keyword_or_ident : Option SyntaxKind → SyntaxKind
keyword_or_ident none = SyntaxKind.ident
keyword_or_ident (some kind) = kind

-- The arm of `'.'`.
unfoldable pub scan_dots : Ptr → SyntaxKind × Ptr
scan_dots ptr =
    if at ptr b'.' && holds_of (λ d. d == b'.') (nth ptr 1)
    then (SyntaxKind.dotdotdot, bump (bump ptr))
    else if at ptr b'.' && holds_of (λ d. d == b'=') (nth ptr 1)
    then (SyntaxKind.dotdoteq, bump (bump ptr))
    else if at ptr b'.'
    then (SyntaxKind.dotdot, bump ptr)
    else (SyntaxKind.dot, ptr)

module _ (xid : UnicodeXid) where
  unfoldable pub scan_literal_suffix : Ptr → Ptr
  scan_literal_suffix ptr =
      bump_while (is_ident_continue xid) (if at_p ptr (is_ident_start xid) then bump ptr else ptr)

  abbrev is_single_letter : Option ℕ → Bool
  is_single_letter none = true
  is_single_letter (some c) = not (is_ident_continue xid c)

  unfoldable pub scan_ident : ℕ → Ptr → SyntaxKind × Ptr
  scan_ident c ptr =
      if is_single_letter (current ptr)
      then (if c == b'_' then SyntaxKind.underscore else SyntaxKind.ident, ptr)
      else (let p = bump_while (is_ident_continue xid) ptr in
          (keyword_or_ident (from_keyword (current_token_text p)), p))

  -- The arm of a single quote: a lifetime, or a character.
  unfoldable pub scan_quote : Ptr → SyntaxKind × Ptr
  scan_quote ptr =
      if at_p ptr (is_ident_start xid) && not (at_str ptr (39 ∷ 39 ∷ []))
      then (let p = bump_while (is_ident_continue xid) (bump ptr) in
          if at p 39 then (SyntaxKind.char, bump p) else (SyntaxKind.lifetime, p))
      else (SyntaxKind.char, scan_literal_suffix (scan_char ptr))

  -- The arm of `'b'`.
  abbrev pub byte_arm : Option (SyntaxKind × Ptr) → Option (SyntaxKind × Ptr)
  byte_arm none = none
  byte_arm (some (kind, p)) = some (kind, scan_literal_suffix p)

  -- The last `match`: tokens of several characters.
  unfoldable pub scan_multi : ℕ → Ptr → Option (SyntaxKind × Ptr)
  scan_multi c ptr =
      if c == b'.'
      then some (scan_dots ptr)
      else if c == b':'
      then some (if at ptr b':' then (SyntaxKind.coloncolon, bump ptr) else (SyntaxKind.colon, ptr))
      else if c == b'='
      then some (
          if at ptr b'='
          then (SyntaxKind.eqeq, bump ptr)
          else if at ptr b'>'
          then (SyntaxKind.fat_arrow, bump ptr)
          else (SyntaxKind.eq, ptr))
      else if c == b'!'
      then some (if at ptr b'=' then (SyntaxKind.neq, bump ptr) else (SyntaxKind.excl, ptr))
      else if c == b'-'
      then some (if at ptr b'>' then (SyntaxKind.thin_arrow, bump ptr) else (SyntaxKind.minus, ptr))
      else if c == 39
      then some (scan_quote ptr)
      else if c == b'b'
      then byte_arm (scan_byte_char_or_string ptr)
      else if c == b'"'
      then some (SyntaxKind.string, scan_literal_suffix (scan_string ptr))
      else if c == b'r'
      then some (SyntaxKind.raw_string, scan_literal_suffix (scan_raw_string ptr))
      else some (SyntaxKind.error, ptr)

  -- The one-byte tokens, and what is left.
  abbrev pub char_or_multi : Option SyntaxKind → ℕ → Ptr → Option (SyntaxKind × Ptr)
  char_or_multi none c ptr = scan_multi c ptr
  char_or_multi (some kind) c ptr = some (kind, ptr)

  -- From `let ident_start` on.
  unfoldable pub scan_solid : ℕ → Ptr → Option (SyntaxKind × Ptr)
  scan_solid c ptr =
      if is_ident_start xid c && not (is_string_literal_start c (current ptr) (nth ptr 1))
      then some (scan_ident c ptr)
      else if is_dec_digit c
      then (let (kind, p) = scan_number xid c ptr in some (kind, scan_literal_suffix p))
      else char_or_multi (from_char c) c ptr

  abbrev pub comment_or_solid : ℕ → Option SyntaxKind × Ptr → Option (SyntaxKind × Ptr)
  comment_or_solid c (none, ptr) = scan_solid c ptr
  comment_or_solid c (some kind, ptr) = some (kind, ptr)

  unfoldable pub next_token_inner : ℕ → Ptr → Option (SyntaxKind × Ptr)
  next_token_inner c ptr =
      if is_whitespace c
      then some (SyntaxKind.whitespace, bump_while is_whitespace ptr)
      else if c == b'#'
      then (let (hit, p) = scan_shebang ptr in
          if hit then some (SyntaxKind.shebang, p) else scan_solid c p)
      else if c == b'/'
      then comment_or_solid c (scan_comment ptr)
      else scan_solid c ptr
