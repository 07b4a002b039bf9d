-- ===== src/Lexer/Strings.antt =====
-- crates/ra_syntax/src/lexer/strings.rs
pub mod Within
use rust_analyzer.Base.{
  ℕ, ◌+◌, ◌-◌, Bool, true, false, ◌||◌, ◌&&◌, Option, none, some, ltb, ◌==◌, if◌then◌else◌,
}
use rust_analyzer.Base.Loop.{Flow, again, stop, loop}
use rust_analyzer.SyntaxKind.{SyntaxKind, byte, byte_string, raw_byte_string}
use rust_analyzer.Lexer.Ptr.{Ptr, current, at, bump, left, while_some, holds_of}

-- The patterns are read in the order of the source, as one test for each first character.
unfoldable pub is_string_literal_start : ℕ → Option ℕ → Option ℕ → Bool
is_string_literal_start c c1 c2 =
    (c == b'r' && (holds_of (λ d. d == b'"') c1 || holds_of (λ d. d == b'#') c1))
    || (c == b'b'
        && (holds_of (λ d. d == b'"') c1
            || holds_of (λ d. d == 39) c1
            || (holds_of (λ d. d == b'r') c1
                && (holds_of (λ d. d == b'"') c2 || holds_of (λ d. d == b'#') c2))))

-- After a backslash, the backslash or quote that it escapes is passed over too.
abbrev bump_escape : ℕ → Ptr → Ptr
bump_escape quote ptr = if at ptr 92 || at ptr quote then bump ptr else ptr

scan_char_round : Ptr → Flow Ptr Ptr
scan_char_round ptr = while_some (current ptr) ptr λ c.
    if c == 92
    then again (bump_escape 39 (bump ptr))
    else if c == 39
    then stop (bump ptr)
    else if c == 10
    then stop ptr
    else again (bump ptr)

unfoldable pub scan_char : Ptr → Ptr
unfolding scan_char_round
scan_char = loop left scan_char_round (λ ptr. ptr)

scan_string_round : Ptr → Flow Ptr Ptr
scan_string_round ptr = while_some (current ptr) ptr λ c.
    if c == 92
    then again (bump_escape b'"' (bump ptr))
    else if c == b'"'
    then stop (bump ptr)
    else again (bump ptr)

unfoldable pub scan_string : Ptr → Ptr
unfolding scan_string_round
scan_string = loop left scan_string_round (λ ptr. ptr)

-- `while ptr.at('#')`, with the count of the marks passed.
pub count_hashes_round : Ptr × ℕ → Flow (Ptr × ℕ) (Ptr × ℕ)
count_hashes_round (ptr, hashes) =
    if at ptr b'#' then again (bump ptr, hashes + 1) else stop (ptr, hashes)

unfoldable pub count_hashes : Ptr × ℕ → Ptr × ℕ
unfolding count_hashes_round
count_hashes = loop (λ (p, h). left p) count_hashes_round (λ s. s)

-- `while ptr.at('#') && hashes_left > 0`
pub match_hashes_round : Ptr × ℕ → Flow (Ptr × ℕ) (Ptr × ℕ)
match_hashes_round (ptr, hashes_left) =
    if at ptr b'#' && ltb 0 hashes_left
    then again (bump ptr, hashes_left - 1)
    else stop (ptr, hashes_left)

unfoldable pub match_hashes : Ptr × ℕ → Ptr × ℕ
unfolding match_hashes_round
match_hashes = loop (λ (p, h). left p) match_hashes_round (λ s. s)

pub raw_string_round : ℕ → Ptr → Flow Ptr Ptr
raw_string_round hashes ptr = while_some (current ptr) ptr λ c.
    if c == b'"'
    then (let (p, hashes_left) = match_hashes (bump ptr, hashes) in
        if hashes_left == 0 then stop p else again p)
    else again (bump ptr)

unfoldable pub scan_raw_string : Ptr → Ptr
unfolding count_hashes match_hashes raw_string_round
scan_raw_string ptr =
    let (p, hashes) = count_hashes (ptr, 0) in
    if at p b'"' then loop left (raw_string_round hashes) (λ q. q) (bump p) else p

raw_byte_string_round : Ptr → Flow Ptr Ptr
raw_byte_string_round ptr =
    while_some (current ptr) ptr (λ c. if c == b'"' then stop (bump ptr) else again (bump ptr))

unfoldable pub scan_raw_byte_string : Ptr → Ptr
unfolding raw_byte_string_round
scan_raw_byte_string ptr =
    if at ptr b'"' then loop left raw_byte_string_round (λ q. q) (bump ptr) else ptr

-- The `match` on the character after the `b`; `none` is the panic of `unwrap` or `unreachable!`.
unfoldable pub byte_literal : Option ℕ → Ptr → Option (SyntaxKind × Ptr)
byte_literal none ptr = none
byte_literal (some c) ptr =
    if c == 39
    then some (byte, scan_char ptr)
    else if c == b'"'
    then some (byte_string, scan_string ptr)
    else if c == b'r'
    then some (raw_byte_string, scan_raw_byte_string ptr)
    else none

unfoldable pub scan_byte_char_or_string : Ptr → Option (SyntaxKind × Ptr)
unfolding byte_literal
scan_byte_char_or_string ptr = byte_literal (current ptr) (bump ptr)
