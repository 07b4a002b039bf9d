-- ===== src/Lexer/Tokenize/Lossless.antt =====
-- The tokens of `tokenize` (crates/ra_syntax/src/lexer.rs) tile the text.
use rust_analyzer.Base.{
  ℕ, ◌≤◌, ◌<◌, ◌≡◌, refl, sym, ap, List, [], ◌∷◌, ◌++◌, Option, none, some, arith, length,
  length-append,
}
use rust_analyzer.Base.Str.{str_len, slice_from-append}
use rust_analyzer.Base.Loop.{RoundKeeps, RoundFalls, loop-keeps, again}
use rust_analyzer.SyntaxKind.{SyntaxKind}
use rust_analyzer.Lexer.Classes.{UnicodeXid}
use rust_analyzer.Lexer.Ptr
use rust_analyzer.Lexer.Ptr.{Ptr, bump, into_len}
use rust_analyzer.Lexer.Ptr.Within.{Within-splits, Within-bounded, Within-here}
use rust_analyzer.Lexer.Scan.{next_token_inner}
use rust_analyzer.Lexer.Scan.Within.{ScanOk, scanned, ScanOk-next_token_inner}
use rust_analyzer.Lexer.Tokenize.{Token, to_token, next_token, push_token, tokenize_round, tokenize}

-- What `next_token` returns on a text that is not empty.
pub record NextPiece (xid : UnicodeXid) (c : ℕ) (text : List ℕ) : Type 0 where
  pub token : Token
  pub piece : List ℕ
  pub rest : List ℕ
  pub returned : next_token xid (c ∷ text) ≡ some token
  pub splits : c ∷ text ≡ piece ++ rest
  pub measured : token.len ≡ str_len piece
  pub shorter : length rest ≤ length text

pub NextPiece-next_token : (xid : UnicodeXid) (c : ℕ) (text : List ℕ) → NextPiece xid c text
unfolding next_token bump into_len
NextPiece-next_token xid c text = go (next_token_inner xid c (bump (Ptr.new (c ∷ text)))) refl (
    ScanOk-next_token_inner xid c (bump (Ptr.new (c ∷ text)))
      (Within-here (bump (Ptr.new (c ∷ text)))))
  where
    go :
        (o : Option (SyntaxKind × Ptr))
        → next_token_inner xid c (bump (Ptr.new (c ∷ text))) ≡ o
        → ScanOk (c ∷ text) (length text) o
        → NextPiece xid c text
    go _ e (scanned {r} w) = record {
      token = to_token r;
      piece = r.1.seen;
      rest = r.1.rest;
      returned = rw e;
      splits = sym (Within-splits w);
      measured = refl;
      shorter = Within-bounded w;
    }

piece_pos :
    {xid : UnicodeXid} {c : ℕ} {text : List ℕ} (n : NextPiece xid c text) → 0 < length n.piece
piece_pos n = omega (arith, ap length n.splits, length-append n.piece n.rest, n.shorter)

-- From `text`, token after token as `next_token` finds them, the tokens lead to `rest`. Each covers a
-- piece of the text that is not empty, and has its length in bytes.
pub data Tiles (xid : UnicodeXid) : List Token → List ℕ → List ℕ → Type 0 where
  no_tokens : {text : List ℕ} → Tiles xid [] text text
  one_token :
      {token : Token} {text rest : List ℕ} {tokens : List Token} (piece mid : List ℕ)
      → next_token xid text ≡ some token
      → text ≡ piece ++ mid
      → 0 < length piece
      → token.len ≡ str_len piece
      → Tiles xid tokens mid rest
      → Tiles xid (token ∷ tokens) text rest

module _ {xid : UnicodeXid} where
  Tiles-snoc :
      {ts us : List Token} {text mid rest : List ℕ}
      → Tiles xid ts text mid
      → Tiles xid us mid rest
      → Tiles xid (ts ++ us) text rest
  Tiles-snoc no_tokens u = u
  Tiles-snoc (one_token q m n e p l t) u = one_token q m n e p l (Tiles-snoc t u)

module _ (xid : UnicodeXid) (whole : List ℕ) where
  abbrev Lexed : Option (List Token) → Type 0
  Lexed o = (tokens : List Token) × (o ≡ some tokens) × Tiles xid tokens whole []

  push-NextPiece :
      (acc : List Token) (c : ℕ) (text : List ℕ) (n : NextPiece xid c text)
      → push_token acc (c ∷ text) (next_token xid (c ∷ text)) ≡ again (n.rest, acc ++ n.token ∷ [])
  push-NextPiece acc c text n =
      rw (n.returned, n.splits, n.measured, slice_from-append n.piece n.rest)

  tokenize_round-falls :
      (s : List ℕ × List Token)
      → RoundFalls {A = Option (List Token)}
          (λ (t, acc). length t)
          (length s.0)
          (tokenize_round xid s)
  unfolding tokenize_round
  tokenize_round-falls ([], acc) = tt
  tokenize_round-falls (c ∷ text, acc) =
      let n = NextPiece-next_token xid c text in
      rw (push-NextPiece acc c text n) (omega (arith, n.shorter))

  tokenize_round-keeps :
      (s : List ℕ × List Token)
      → Tiles xid s.1 whole s.0
      → RoundKeeps (λ (t, acc). Tiles xid acc whole t) Lexed (tokenize_round xid s)
  unfolding tokenize_round
  tokenize_round-keeps ([], acc) t = (acc, refl, t)
  tokenize_round-keeps (c ∷ text, acc) t =
      let n = NextPiece-next_token xid c text in
      rw (push-NextPiece acc c text n) (
        Tiles-snoc t
          (one_token n.piece n.rest n.returned n.splits (piece_pos n) n.measured no_tokens))

-- For every text, `tokenize` returns without a panic, and its tokens, as `next_token` finds them one
-- after another, are the whole text cut into pieces that are not empty.
pub tokenize-Tiles :
    (xid : UnicodeXid) (text : List ℕ)
    → (tokens : List Token) × (tokenize xid text ≡ some tokens) × Tiles xid tokens text []
unfolding tokenize
tokenize-Tiles xid text =
    loop-keeps (λ (t, acc). length t) (tokenize_round xid) (λ s. none)
      (tokenize_round-falls xid text) (λ (t, acc). Tiles xid acc text t) (Lexed xid text)
      (tokenize_round-keeps xid text) (text, []) no_tokens
