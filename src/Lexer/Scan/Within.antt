-- ===== src/Lexer/Scan/Within.antt =====
-- Scanning one token (crates/ra_syntax/src/lexer.rs) never panics and stays within its text.
use rust_analyzer.Base.{
  ℕ, ◌≡◌, refl, Bool, true, false, not, ◌&&◌, List, Option, none, some, ◌==◌, if◌then◌else◌, arith,
}
use rust_analyzer.SyntaxKind.{SyntaxKind}
use rust_analyzer.SyntaxKind.Text.{from_char}
use rust_analyzer.Lexer.Classes.{is_dec_digit, UnicodeXid, is_ident_start}
use rust_analyzer.Lexer.Ptr.{Ptr, current, nth, bump}
use rust_analyzer.Lexer.Ptr.Within.{Within, Within-bump, Within-bump_while, scan_rules}
use rust_analyzer.Lexer.Comments.Within.{Within-scan_shebang, Within-scan_comment}
use rust_analyzer.Lexer.Numbers.{scan_number}
use rust_analyzer.Lexer.Numbers.Within.{Within-scan_number}
use rust_analyzer.Lexer.Strings.{is_string_literal_start, scan_byte_char_or_string, byte_literal}
use rust_analyzer.Lexer.Strings.Within.{
  Within-scan_char, Within-scan_string, Within-scan_raw_string, Within-scan_raw_byte_string,
}
use rust_analyzer.Lexer.Scan.{
  byte_arm, char_or_multi, comment_or_solid, scan_literal_suffix, scan_ident, scan_dots, scan_quote,
  scan_multi, scan_solid, next_token_inner,
}

-- A token was scanned, and the pointer is within the text.
pub data ScanOk (text : List ℕ) (n : ℕ) : Option (SyntaxKind × Ptr) → Type 0 where
  scanned : {r : SyntaxKind × Ptr} → Within text n r.1 → ScanOk text n (some r)

module _ {text : List ℕ} {n : ℕ} where
  ScanOk-if :
      (b : Bool) (x y : Option (SyntaxKind × Ptr))
      → (b ≡ true → ScanOk text n x)
      → (b ≡ false → ScanOk text n y)
      → ScanOk text n (if b then x else y)
  ScanOk-if true x y hx hy = hx refl
  ScanOk-if false x y hx hy = hy refl

  Within-scan_dots : (ptr : Ptr) → Within text n ptr → Within text n (scan_dots ptr).1
  unfolding scan_dots
  Within-scan_dots ptr w = search scan_rules depth 9

-- A `b` that does not start a literal starts an identifier.
byte_start :
    (xid : UnicodeXid) (c : ℕ) (o d : Option ℕ)
    → (is_ident_start xid c && not (is_string_literal_start c o d)) ≡ false
    → (c == b'b') ≡ true
    → is_string_literal_start b'b' o d ≡ true
unfolding is_ident_start
byte_start xid c o d h e = ground arith

module _ (xid : UnicodeXid) {text : List ℕ} {n : ℕ} where
  Within-scan_literal_suffix :
      (ptr : Ptr) → Within text n ptr → Within text n (scan_literal_suffix xid ptr)
  unfolding scan_literal_suffix
  Within-scan_literal_suffix ptr w = search (scan_rules, Within-bump_while)

  Within-scan_ident :
      (c : ℕ) (ptr : Ptr) → Within text n ptr → Within text n (scan_ident xid c ptr).1
  unfolding scan_ident
  Within-scan_ident c ptr w = search (scan_rules, Within-bump_while)

  Within-scan_quote : (ptr : Ptr) → Within text n ptr → Within text n (scan_quote xid ptr).1
  unfolding scan_quote
  Within-scan_quote ptr w =
      search (scan_rules, Within-bump_while, Within-scan_literal_suffix, Within-scan_char)

  ScanOk-byte_arm :
      (o : Option (SyntaxKind × Ptr)) → ScanOk text n o → ScanOk text n (byte_arm xid o)
  ScanOk-byte_arm _ (scanned {r} w) = scanned (Within-scan_literal_suffix r.1 w)

  -- The byte literals: where the lexer comes here, one of the three arms is taken.
  ScanOk-byte_literal :
      (o d : Option ℕ) (ptr : Ptr)
      → is_string_literal_start b'b' o d ≡ true
      → Within text n ptr
      → ScanOk text n (byte_literal o ptr)
  unfolding byte_literal is_string_literal_start
  ScanOk-byte_literal none d ptr start w = cc
  ScanOk-byte_literal (some c) d ptr start w =
      ScanOk-if (c == 39) _ _ (λ _. scanned (Within-scan_char ptr w))
        λ a.
          ScanOk-if (c == b'"') _ _ (λ _. scanned (Within-scan_string ptr w))
            λ b.
              ScanOk-if (c == b'r') _ _ (λ _. scanned (Within-scan_raw_byte_string ptr w))
                λ r. absurd (ground arith)

  ScanOk-scan_multi :
      (c : ℕ) (ptr : Ptr)
      → ((c == b'b') ≡ true → is_string_literal_start b'b' (current ptr) (nth ptr 1) ≡ true)
      → Within text n ptr
      → ScanOk text n (scan_multi xid c ptr)
  unfolding scan_multi scan_byte_char_or_string
  ScanOk-scan_multi c ptr start w =
      let byte : (c == b'b') ≡ true
          → ScanOk text n (byte_arm xid (byte_literal (current ptr) (bump ptr))) =
        λ e. ScanOk-byte_arm _ (
          ScanOk-byte_literal (current ptr) (nth ptr 1) (bump ptr) (start e) (Within-bump ptr w)) in
      search
        (
          scan_rules, scanned, ScanOk-if, byte, Within-scan_dots, Within-scan_quote,
          Within-scan_literal_suffix, Within-scan_string, Within-scan_raw_string,
        )
        depth 14

  ScanOk-char_or_multi :
      (o : Option SyntaxKind) (c : ℕ) (ptr : Ptr)
      → ((c == b'b') ≡ true → is_string_literal_start b'b' (current ptr) (nth ptr 1) ≡ true)
      → Within text n ptr
      → ScanOk text n (char_or_multi xid o c ptr)
  ScanOk-char_or_multi none c ptr start w = ScanOk-scan_multi c ptr start w
  ScanOk-char_or_multi (some kind) c ptr start w = scanned w

  ScanOk-scan_solid : (c : ℕ) (ptr : Ptr) → Within text n ptr → ScanOk text n (scan_solid xid c ptr)
  unfolding scan_solid
  ScanOk-scan_solid c ptr w =
      let after_number : Within text n (scan_literal_suffix xid (scan_number xid c ptr).1) =
        Within-scan_literal_suffix _ (Within-scan_number xid c ptr w) in
      ScanOk-if (is_ident_start xid c && not (is_string_literal_start c (current ptr) (nth ptr 1)))
        _ _ (λ _. scanned (Within-scan_ident c ptr w))
        λ start.
          ScanOk-if (is_dec_digit c) _ _
            (λ _.
              scanned
                {r = ((scan_number xid c ptr).0, scan_literal_suffix xid (scan_number xid c ptr).1)}
                after_number)
            (λ _.
              ScanOk-char_or_multi (from_char c) c ptr
                (byte_start xid c (current ptr) (nth ptr 1) start) w)

  ScanOk-comment_or_solid :
      (c : ℕ) (r : Option SyntaxKind × Ptr)
      → Within text n r.1
      → ScanOk text n (comment_or_solid xid c r)
  ScanOk-comment_or_solid c (none, ptr) w = ScanOk-scan_solid c ptr w
  ScanOk-comment_or_solid c (some kind, ptr) w = scanned w

  pub ScanOk-next_token_inner :
      (c : ℕ) (ptr : Ptr) → Within text n ptr → ScanOk text n (next_token_inner xid c ptr)
  unfolding next_token_inner
  ScanOk-next_token_inner c ptr w =
      search
        (
          scan_rules, scanned, ScanOk-if, Within-bump_while, Within-scan_shebang,
          Within-scan_comment, ScanOk-scan_solid, ScanOk-comment_or_solid,
        )
        depth 10
