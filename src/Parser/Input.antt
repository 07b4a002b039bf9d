-- ===== src/Parser/Input.antt =====
-- crates/ra_syntax/src/parser_impl/input.rs: the tokens that the grammar sees.
use rust_analyzer.Base.{
  ℕ, ◌+◌, List, [], ◌∷◌, ◌++◌, Option, none, some, if◌then◌else◌, get_elem?, ◌>>=◌,
}
use rust_analyzer.Base.Str.{slice}
use rust_analyzer.SyntaxKind.{SyntaxKind, eof, is_trivia}
use rust_analyzer.Lexer.Tokenize.{Token}

-- Tokens that are no whitespace and no comment, with the offset at which each starts.
pub record ParserInput : Type 0 where
  pub text : List ℕ
  pub start_offsets : List ℕ
  pub tokens : List Token

-- The loop of `ParserInput::new` over the raw tokens, with its `len`.
unfoldable pub collect : List Token → ℕ → ParserInput → ParserInput
collect [] len inp = inp
collect (token ∷ raw_tokens) len inp = collect raw_tokens (len + token.len) (
    if is_trivia token.kind then inp else record inp {
      tokens = inp.tokens ++ token ∷ [];
      start_offsets = inp.start_offsets ++ len ∷ [];
    })

-- ParserInput::new
unfoldable pub new : List ℕ → List Token → ParserInput
unfolding collect
new text raw_tokens = collect raw_tokens 0 (record { text = text; start_offsets = []; tokens = [] })

abbrev pub kind_or_eof : Option Token → SyntaxKind
kind_or_eof none = eof
kind_or_eof (some token) = token.kind

abbrev pub len_or_zero : Option Token → ℕ
len_or_zero none = 0
len_or_zero (some token) = token.len

abbrev pub or_zero : Option ℕ → ℕ
or_zero none = 0
or_zero (some n) = n

-- ParserInput::kind
unfoldable pub kind : ParserInput → ℕ → SyntaxKind
kind inp pos = kind_or_eof (get_elem? inp.tokens pos)

-- ParserInput::token_len
unfoldable pub token_len : ParserInput → ℕ → ℕ
token_len inp pos = len_or_zero (get_elem? inp.tokens pos)

-- ParserInput::token_start_at. The two vectors have the same length.
unfoldable pub token_start_at : ParserInput → ℕ → ℕ
token_start_at inp pos = or_zero (get_elem? inp.start_offsets pos)

abbrev text_or_empty : ParserInput → ℕ → Option Token → Option (List ℕ)
text_or_empty inp pos none = some []
text_or_empty inp pos (some token) = do
  start ← get_elem? inp.start_offsets pos
  slice inp.text start token.len

-- ParserInput::token_text
unfoldable pub token_text : ParserInput → ℕ → Option (List ℕ)
token_text inp pos = text_or_empty inp pos (get_elem? inp.tokens pos)
