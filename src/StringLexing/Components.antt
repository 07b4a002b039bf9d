-- ===== src/StringLexing/Components.antt =====
-- `Parser` of crates/ra_syntax/src/string_lexing/parser.rs. Its `src` and `pos` are a `Ptr`: the text
-- passed, which is `pos` bytes long, and the text to come; `peek` and `advance` are its `current` and
-- `bump`. Its `quote` is an argument.
pub mod Within
use rust_analyzer.Base.{
  ℕ, ◌-◌, Bool, true, false, ◌||◌, ◌&&◌, [], ◌∷◌, Option, none, some, ◌==◌, if◌then◌else◌,
}
use rust_analyzer.Base.Loop.{Flow, again, stop, loop}
use rust_analyzer.Lexer.Classes.{is_whitespace}
use rust_analyzer.Lexer.Ptr.{
  Ptr, current, at, bump, bump_while, left, while_some, into_len, holds_of,
}

pub data StringComponentKind : Type 0 where
  ignore_newline : StringComponentKind
  code_point : StringComponentKind
  ascii_escape : StringComponentKind
  ascii_code_escape : StringComponentKind
  unicode_escape : StringComponentKind

-- The range is given by its two ends.
pub record StringComponent : Type 0 where
  pub from : ℕ
  pub to : ℕ
  pub kind : StringComponentKind

-- A component from `start` to the position of the parser.
abbrev pub ending_here : ℕ → StringComponentKind → Ptr → StringComponent × Ptr
ending_here start kind ptr = (record { from = start; to = into_len ptr; kind = kind }, ptr)

-- Anything up to `}`, with it.
brace_round : Ptr → Flow Ptr Ptr
brace_round ptr =
    while_some (current ptr) ptr (λ c. if c == b'}' then stop (bump ptr) else again (bump ptr))

unfoldable pub advance_past_brace : Ptr → Ptr
unfolding brace_round
advance_past_brace = loop left brace_round (λ ptr. ptr)

unfoldable pub parse_unicode_escape : ℕ → Ptr → StringComponent × Ptr
unfolding advance_past_brace
parse_unicode_escape start ptr =
    ending_here start unicode_escape (if at ptr b'{' then advance_past_brace (bump ptr) else ptr)

-- At most two bytes from `code_start`, and not the single quote.
code_round : ℕ → Ptr → Flow Ptr Ptr
code_round code_start ptr =
    while_some (current ptr) ptr
      (λ c. if c == 39 || into_len ptr - code_start == 2 then stop ptr else again (bump ptr))

unfoldable pub advance_code : ℕ → Ptr → Ptr
unfolding code_round
advance_code code_start = loop left (code_round code_start) (λ ptr. ptr)

unfoldable pub parse_ascii_code_escape : ℕ → Ptr → StringComponent × Ptr
unfolding advance_code
parse_ascii_code_escape start ptr =
    ending_here start ascii_code_escape (advance_code (into_len ptr) ptr)

-- What follows a backslash.
unfoldable pub parse_escape_at : Option ℕ → ℕ → Ptr → StringComponent × Ptr
unfolding parse_unicode_escape parse_ascii_code_escape
parse_escape_at none start ptr = ending_here start ascii_escape ptr
parse_escape_at (some next) start ptr =
    if next == b'x'
    then parse_ascii_code_escape start (bump ptr)
    else if next == b'u'
    then parse_unicode_escape start (bump ptr)
    else ending_here start ascii_escape (bump ptr)

unfoldable pub parse_escape : ℕ → Ptr → StringComponent × Ptr
unfolding parse_escape_at
parse_escape start ptr = parse_escape_at (current ptr) start ptr

-- `none` where no newline follows; nothing is passed then.
unfoldable pub parse_ignore_newline : ℕ → Ptr → Option (StringComponent × Ptr)
parse_ignore_newline start ptr =
    if at ptr 10 || at ptr 13
    then some (ending_here start ignore_newline (bump_while is_whitespace ptr))
    else none

abbrev pub or_escape : ℕ → Ptr → Option (StringComponent × Ptr) → StringComponent × Ptr
or_escape start ptr none = parse_escape start ptr
or_escape start ptr (some r) = r

-- The component that starts with the character `next`, which is not the quote.
unfoldable pub component_from : ℕ → ℕ → Ptr → StringComponent × Ptr
unfolding parse_escape parse_ignore_newline
component_from quote next ptr =
    if next == 92
    then (if quote == b'"'
        then or_escape (into_len ptr) (bump ptr) (parse_ignore_newline (into_len ptr) (bump ptr))
        else parse_escape (into_len ptr) (bump ptr))
    else ending_here (into_len ptr) code_point (bump ptr)

abbrev pub component_at : ℕ → Option ℕ → Ptr → Option (StringComponent × Ptr)
component_at quote none ptr = none
component_at quote (some next) ptr =
    if next == quote then none else some (component_from quote next ptr)

-- `none` at the end and at the quote; nothing is passed then.
unfoldable pub parse_component : ℕ → Ptr → Option (StringComponent × Ptr)
unfolding component_from
parse_component quote ptr = component_at quote (current ptr) ptr
