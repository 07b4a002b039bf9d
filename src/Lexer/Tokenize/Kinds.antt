-- ===== src/Lexer/Tokenize/Kinds.antt =====
-- The kinds of the tokens that `tokenize` (crates/ra_syntax/src/lexer.rs) gives.
use rust_analyzer.Base.{ℕ, ◌≡◌, subst, List, [], ◌∷◌, Option, none, some, ◌>>=◌}
use rust_analyzer.SyntaxKind.{SyntaxKind}
use rust_analyzer.Lexer.Classes.{UnicodeXid}
use rust_analyzer.Lexer.Ptr.{Ptr}
use rust_analyzer.Lexer.Scan.Kinds.{IsLexed, ScansLexed, ScansLexed-next_token_inner}
use rust_analyzer.Lexer.Tokenize.{Token, to_token, next_token, tokenize}
use rust_analyzer.Lexer.Tokenize.Lossless.{Tiles, no_tokens, one_token, tokenize-Tiles}

-- Every token has the kind of one.
abbrev pub AllLexed : List Token → Type 0
AllLexed [] = Unit {0}
AllLexed (t ∷ ts) = IsLexed t.kind × AllLexed ts

IsLexed-to_token :
    (o : Option (SyntaxKind × Ptr)) (t : Token)
    → ScansLexed o
    → (o >>= λ r. some (to_token r)) ≡ some t
    → IsLexed t.kind
IsLexed-to_token none t h e = cc e
IsLexed-to_token (some r) t h e =
    let same : to_token r ≡ t = cc e in subst (λ u. IsLexed u.kind) same h

IsLexed-next_token :
    (xid : UnicodeXid) (text : List ℕ) (t : Token) → next_token xid text ≡ some t → IsLexed t.kind
unfolding next_token
IsLexed-next_token xid [] t e = cc e
IsLexed-next_token xid (c ∷ text) t e = IsLexed-to_token _ t (ScansLexed-next_token_inner xid c _) e

AllLexed-Tiles :
    (xid : UnicodeXid) {tokens : List Token} {text rest : List ℕ}
    → Tiles xid tokens text rest
    → AllLexed tokens
AllLexed-Tiles xid no_tokens = tt
AllLexed-Tiles xid (one_token {token} {text} piece mid next splits pos measured tiles) =
    (IsLexed-next_token xid text token next, AllLexed-Tiles xid tiles)

-- Every token that `tokenize` gives has a kind of tokens: not a tombstone, not the end of the input,
-- and below 128, so that a `TokenSet` can hold it.
pub tokenize-AllLexed :
    (xid : UnicodeXid) (text : List ℕ) (tokens : List Token)
    → tokenize xid text ≡ some tokens
    → AllLexed tokens
tokenize-AllLexed xid text tokens e =
    let (found, returned, t) = tokenize-Tiles xid text in
    let same : found ≡ tokens = cc (returned, e) in subst AllLexed same (AllLexed-Tiles xid t)
