-- ===== src/Lexer/Scan/Kinds.antt =====
-- The kinds that crates/ra_syntax/src/lexer.rs gives: those of tokens.
use rust_analyzer.Base.{
  ℕ, ◌≡◌, refl, sym, subst, Bool, true, false, ◌&&◌, List, [], ◌∷◌, Option, none, some, ltb,
  if◌then◌else◌, inl, inr, Option-cases,
}
use rust_analyzer.SyntaxKind.{SyntaxKind}
use rust_analyzer.SyntaxKind.Text.{from_keyword, from_char, keyword_arms}
use rust_analyzer.SyntaxKind.IsKeyword.{HasArm, from_keyword-is_keyword}
use rust_analyzer.Lexer.Classes.{UnicodeXid}
use rust_analyzer.Lexer.Ptr.{Ptr}
use rust_analyzer.Lexer.Comments.{scan_comment, scan_block_comment}
use rust_analyzer.Lexer.Numbers.{scan_number, scan_fraction, scan_integer_part}
use rust_analyzer.Lexer.Strings.{scan_byte_char_or_string, byte_literal}
use rust_analyzer.Lexer.Scan.{
  keyword_or_ident, scan_dots, scan_ident, scan_quote, byte_arm, scan_multi, char_or_multi,
  scan_solid, comment_or_solid, next_token_inner,
}

-- Neither a tombstone nor the end of the input, and below the width of a `TokenSet`.
abbrev pub IsLexed : SyntaxKind → Type 0
IsLexed kind = (ltb 1 kind && ltb kind 128) ≡ true

abbrev MaybeLexed : Option SyntaxKind → Type 0
MaybeLexed none = Unit {0}
MaybeLexed (some kind) = IsLexed kind

abbrev pub ScansLexed : Option (SyntaxKind × Ptr) → Type 0
ScansLexed none = Unit {0}
ScansLexed (some r) = IsLexed r.0

abbrev AllLexed : List (List ℕ × SyntaxKind) → Type 0
AllLexed [] = Unit {0}
AllLexed ((text, kind) ∷ arms) = IsLexed kind × AllLexed arms

keyword_arms-AllLexed : AllLexed keyword_arms
keyword_arms-AllLexed = search depth 80

IsLexed-HasArm :
    (ident : List ℕ) (kind : SyntaxKind) (arms : List (List ℕ × SyntaxKind))
    → AllLexed arms
    → HasArm ident kind arms
    → IsLexed kind
IsLexed-HasArm ident kind [] all h = absurd h
IsLexed-HasArm ident kind ((text, k) ∷ arms) all (inl h) = subst IsLexed (sym h.1) all.0
IsLexed-HasArm ident kind ((text, k) ∷ arms) all (inr h) = IsLexed-HasArm ident kind arms all.1 h

IsLexed-keyword_or_ident : (ident : List ℕ) → IsLexed (keyword_or_ident (from_keyword ident))
IsLexed-keyword_or_ident ident = elim (Option-cases (from_keyword ident)) [
  | inl e ↦ rw e refl
  | inr (kind, e) ↦ rw e (
      IsLexed-HasArm ident kind keyword_arms keyword_arms-AllLexed
        (from_keyword-is_keyword ident kind e).0)
]

IsLexed-if : (b : Bool) (x y : SyntaxKind) → IsLexed x → IsLexed y → IsLexed (if b then x else y)
IsLexed-if true x y hx hy = hx
IsLexed-if false x y hx hy = hy

IsLexed-pair_if :
    (b : Bool) (x y : SyntaxKind × Ptr) → IsLexed x.0 → IsLexed y.0 → IsLexed (if b then x else y).0
IsLexed-pair_if true x y hx hy = hx
IsLexed-pair_if false x y hx hy = hy

MaybeLexed-if :
    (b : Bool) (x y : Option SyntaxKind)
    → MaybeLexed x
    → MaybeLexed y
    → MaybeLexed (if b then x else y)
MaybeLexed-if true x y hx hy = hx
MaybeLexed-if false x y hx hy = hy

ScansLexed-if :
    (b : Bool) (x y : Option (SyntaxKind × Ptr))
    → ScansLexed x
    → ScansLexed y
    → ScansLexed (if b then x else y)
ScansLexed-if true x y hx hy = hx
ScansLexed-if false x y hx hy = hy

MaybeLexed-from_char : (c : ℕ) → MaybeLexed (from_char c)
unfolding from_char
MaybeLexed-from_char c = search MaybeLexed-if depth 60

IsLexed-scan_dots : (ptr : Ptr) → IsLexed (scan_dots ptr).0
unfolding scan_dots
IsLexed-scan_dots ptr = search IsLexed-pair_if

ScansLexed-byte_literal : (o : Option ℕ) (ptr : Ptr) → ScansLexed (byte_literal o ptr)
unfolding byte_literal
ScansLexed-byte_literal none ptr = tt
ScansLexed-byte_literal (some c) ptr = search ScansLexed-if

MaybeLexed-pair_if :
    (b : Bool) (x y : Option SyntaxKind × Ptr)
    → MaybeLexed x.0
    → MaybeLexed y.0
    → MaybeLexed (if b then x else y).0
MaybeLexed-pair_if true x y hx hy = hx
MaybeLexed-pair_if false x y hx hy = hy

MaybeLexed-scan_comment : (ptr : Ptr) → MaybeLexed (scan_comment ptr).0
unfolding scan_comment scan_block_comment
MaybeLexed-scan_comment ptr = search MaybeLexed-pair_if

module _ (xid : UnicodeXid) where
  IsLexed-scan_fraction : (ptr : Ptr) → IsLexed (scan_fraction xid ptr).0
  unfolding scan_fraction
  IsLexed-scan_fraction ptr = search IsLexed-pair_if

  IsLexed-scan_number : (c : ℕ) (ptr : Ptr) → IsLexed (scan_number xid c ptr).0
  unfolding scan_number
  IsLexed-scan_number c ptr = elim (Option-cases (scan_integer_part c ptr)) [
    | inl e ↦ rw (scan_number, e) refl
    | inr (p, e) ↦ rw (scan_number, e) (IsLexed-scan_fraction p)
  ]

  IsLexed-scan_ident : (c : ℕ) (ptr : Ptr) → IsLexed (scan_ident xid c ptr).0
  unfolding scan_ident
  IsLexed-scan_ident c ptr = search (IsLexed-pair_if, IsLexed-if, IsLexed-keyword_or_ident)

  IsLexed-scan_quote : (ptr : Ptr) → IsLexed (scan_quote xid ptr).0
  unfolding scan_quote
  IsLexed-scan_quote ptr = search IsLexed-pair_if

  ScansLexed-byte_arm : (o : Option (SyntaxKind × Ptr)) → ScansLexed o → ScansLexed (byte_arm xid o)
  ScansLexed-byte_arm none h = tt
  ScansLexed-byte_arm (some r) h = h

  ScansLexed-scan_multi : (c : ℕ) (ptr : Ptr) → ScansLexed (scan_multi xid c ptr)
  unfolding scan_multi scan_byte_char_or_string
  ScansLexed-scan_multi c ptr =
      search
        (
          ScansLexed-if, IsLexed-pair_if, IsLexed-scan_dots, IsLexed-scan_quote,
          ScansLexed-byte_arm, ScansLexed-byte_literal,
        )
        depth 40

  ScansLexed-char_or_multi :
      (o : Option SyntaxKind) (c : ℕ) (ptr : Ptr)
      → MaybeLexed o
      → ScansLexed (char_or_multi xid o c ptr)
  ScansLexed-char_or_multi none c ptr h = ScansLexed-scan_multi c ptr
  ScansLexed-char_or_multi (some kind) c ptr h = h

  ScansLexed-scan_solid : (c : ℕ) (ptr : Ptr) → ScansLexed (scan_solid xid c ptr)
  unfolding scan_solid
  ScansLexed-scan_solid c ptr = search (
    ScansLexed-if, IsLexed-scan_ident, IsLexed-scan_number, ScansLexed-char_or_multi,
    MaybeLexed-from_char,
  )

  ScansLexed-comment_or_solid :
      (c : ℕ) (r : Option SyntaxKind × Ptr) → MaybeLexed r.0 → ScansLexed (comment_or_solid xid c r)
  ScansLexed-comment_or_solid c (none, ptr) h = ScansLexed-scan_solid c ptr
  ScansLexed-comment_or_solid c (some kind, ptr) h = h

  -- Whatever token is scanned, its kind is one of a token.
  pub ScansLexed-next_token_inner : (c : ℕ) (ptr : Ptr) → ScansLexed (next_token_inner xid c ptr)
  unfolding next_token_inner
  ScansLexed-next_token_inner c ptr =
      search
        (ScansLexed-if, ScansLexed-scan_solid, ScansLexed-comment_or_solid, MaybeLexed-scan_comment)
