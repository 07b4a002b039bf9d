-- ===== src/SyntaxKind/Text.antt =====
-- `from_keyword` and `from_char` of crates/ra_syntax/src/syntax_kinds/generated.rs.
use rust_analyzer.Base.{
  ℕ, Bool, true, false, ◌&&◌, List, [], ◌∷◌, Option, none, some, ◌==◌, if◌then◌else◌,
}
use rust_analyzer.SyntaxKind.Base.{SyntaxKind}
use rust_analyzer.SyntaxKind.Punctuation.{
  semi, comma, l_paren, r_paren, l_curly, r_curly, l_brack, r_brack, l_angle, r_angle, at, pound,
  tilde, question, dollar, amp, pipe, plus, star, slash, caret, percent,
}
use rust_analyzer.SyntaxKind.Keywords.{
  use_kw, fn_kw, struct_kw, enum_kw, trait_kw, impl_kw, dyn_kw, true_kw, false_kw, as_kw, extern_kw,
  crate_kw, mod_kw, pub_kw, self_kw, super_kw, in_kw, where_kw, for_kw, loop_kw, while_kw,
  continue_kw, break_kw, if_kw, else_kw, match_kw, const_kw, static_kw, mut_kw, unsafe_kw, type_kw,
  ref_kw, let_kw, move_kw, return_kw,
}

-- Texts are lists of code points; `==` on `str`.
unfoldable pub text_eq : List ℕ → List ℕ → Bool
text_eq [] [] = true
text_eq (a ∷ s) (b ∷ t) = a == b && text_eq s t
text_eq _ _ = false

-- The first arm whose text is the identifier.
unfoldable pub find_arm : List ℕ → List (List ℕ × SyntaxKind) → Option SyntaxKind
find_arm ident [] = none
find_arm ident ((text, kind) ∷ arms) = if text_eq ident text then some kind else find_arm ident arms

-- The arms of the `match` of `from_keyword`, in order.
abbrev pub keyword_arms : List (List ℕ × SyntaxKind)
keyword_arms =
    (b'u' ∷ b's' ∷ b'e' ∷ [], use_kw)
    ∷ (b'f' ∷ b'n' ∷ [], fn_kw)
    ∷ (b's' ∷ b't' ∷ b'r' ∷ b'u' ∷ b'c' ∷ b't' ∷ [], struct_kw)
    ∷ (b'e' ∷ b'n' ∷ b'u' ∷ b'm' ∷ [], enum_kw)
    ∷ (b't' ∷ b'r' ∷ b'a' ∷ b'i' ∷ b't' ∷ [], trait_kw)
    ∷ (b'i' ∷ b'm' ∷ b'p' ∷ b'l' ∷ [], impl_kw)
    ∷ (b'd' ∷ b'y' ∷ b'n' ∷ [], dyn_kw)
    ∷ (b't' ∷ b'r' ∷ b'u' ∷ b'e' ∷ [], true_kw)
    ∷ (b'f' ∷ b'a' ∷ b'l' ∷ b's' ∷ b'e' ∷ [], false_kw)
    ∷ (b'a' ∷ b's' ∷ [], as_kw)
    ∷ (b'e' ∷ b'x' ∷ b't' ∷ b'e' ∷ b'r' ∷ b'n' ∷ [], extern_kw)
    ∷ (b'c' ∷ b'r' ∷ b'a' ∷ b't' ∷ b'e' ∷ [], crate_kw)
    ∷ (b'm' ∷ b'o' ∷ b'd' ∷ [], mod_kw)
    ∷ (b'p' ∷ b'u' ∷ b'b' ∷ [], pub_kw)
    ∷ (b's' ∷ b'e' ∷ b'l' ∷ b'f' ∷ [], self_kw)
    ∷ (b's' ∷ b'u' ∷ b'p' ∷ b'e' ∷ b'r' ∷ [], super_kw)
    ∷ (b'i' ∷ b'n' ∷ [], in_kw)
    ∷ (b'w' ∷ b'h' ∷ b'e' ∷ b'r' ∷ b'e' ∷ [], where_kw)
    ∷ (b'f' ∷ b'o' ∷ b'r' ∷ [], for_kw)
    ∷ (b'l' ∷ b'o' ∷ b'o' ∷ b'p' ∷ [], loop_kw)
    ∷ (b'w' ∷ b'h' ∷ b'i' ∷ b'l' ∷ b'e' ∷ [], while_kw)
    ∷ (b'c' ∷ b'o' ∷ b'n' ∷ b't' ∷ b'i' ∷ b'n' ∷ b'u' ∷ b'e' ∷ [], continue_kw)
    ∷ (b'b' ∷ b'r' ∷ b'e' ∷ b'a' ∷ b'k' ∷ [], break_kw)
    ∷ (b'i' ∷ b'f' ∷ [], if_kw)
    ∷ (b'e' ∷ b'l' ∷ b's' ∷ b'e' ∷ [], else_kw)
    ∷ (b'm' ∷ b'a' ∷ b't' ∷ b'c' ∷ b'h' ∷ [], match_kw)
    ∷ (b'c' ∷ b'o' ∷ b'n' ∷ b's' ∷ b't' ∷ [], const_kw)
    ∷ (b's' ∷ b't' ∷ b'a' ∷ b't' ∷ b'i' ∷ b'c' ∷ [], static_kw)
    ∷ (b'm' ∷ b'u' ∷ b't' ∷ [], mut_kw)
    ∷ (b'u' ∷ b'n' ∷ b's' ∷ b'a' ∷ b'f' ∷ b'e' ∷ [], unsafe_kw)
    ∷ (b't' ∷ b'y' ∷ b'p' ∷ b'e' ∷ [], type_kw)
    ∷ (b'r' ∷ b'e' ∷ b'f' ∷ [], ref_kw)
    ∷ (b'l' ∷ b'e' ∷ b't' ∷ [], let_kw)
    ∷ (b'm' ∷ b'o' ∷ b'v' ∷ b'e' ∷ [], move_kw)
    ∷ (b'r' ∷ b'e' ∷ b't' ∷ b'u' ∷ b'r' ∷ b'n' ∷ [], return_kw)
    ∷ []

unfoldable pub from_keyword : List ℕ → Option SyntaxKind
unfolding find_arm text_eq
from_keyword ident = find_arm ident keyword_arms

unfoldable pub from_char : ℕ → Option SyntaxKind
from_char c =
    if c == b';'
    then some semi
    else if c == b','
    then some comma
    else if c == b'('
    then some l_paren
    else if c == b')'
    then some r_paren
    else if c == b'{'
    then some l_curly
    else if c == b'}'
    then some r_curly
    else if c == b'['
    then some l_brack
    else if c == b']'
    then some r_brack
    else if c == b'<'
    then some l_angle
    else if c == b'>'
    then some r_angle
    else if c == b'@'
    then some at
    else if c == b'#'
    then some pound
    else if c == b'~'
    then some tilde
    else if c == b'?'
    then some question
    else if c == b'$'
    then some dollar
    else if c == b'&'
    then some amp
    else if c == b'|'
    then some pipe
    else if c == b'+'
    then some plus
    else if c == b'*'
    then some star
    else if c == b'/'
    then some slash
    else if c == b'^'
    then some caret
    else if c == b'%'
    then some percent
    else none
