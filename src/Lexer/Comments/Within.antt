-- ===== src/Lexer/Comments/Within.antt =====
-- The scanners of crates/ra_syntax/src/lexer/comments.rs stay within their text.
use rust_analyzer.Base.{ℕ, List}
use rust_analyzer.Base.Loop.{loop}
use rust_analyzer.Lexer.Ptr.{Ptr, left}
use rust_analyzer.Lexer.Ptr.Within.{Within, Within-loop, scan_rules}
use rust_analyzer.Lexer.Comments.{
  bump_until_eol, scan_shebang, scan_block_comment, scan_comment, block_comment_round,
}

module _ {text : List ℕ} {n : ℕ} where
  pub Within-bump_until_eol : (ptr : Ptr) → Within text n ptr → Within text n (bump_until_eol ptr)
  unfolding bump_until_eol
  Within-bump_until_eol =
      Within-loop {pos = λ p. p} {end = λ p. p} _ _ (λ s text n w. search scan_rules depth 9)

  pub Within-scan_shebang : (ptr : Ptr) → Within text n ptr → Within text n (scan_shebang ptr).1
  unfolding scan_shebang
  Within-scan_shebang ptr w = search (scan_rules, Within-bump_until_eol)

  block_comment_loop :
      (s : Ptr × ℕ)
      → Within text n s.0
      → Within text n (loop (λ (p, d). left p) block_comment_round (λ (p, d). p) s)
  unfolding block_comment_round
  block_comment_loop =
      Within-loop {pos = λ (p, d). p} {end = λ p. p} block_comment_round (λ (p, d). p)
        (λ s text n w. search scan_rules depth 9)

  pub Within-scan_block_comment :
      (ptr : Ptr) → Within text n ptr → Within text n (scan_block_comment ptr).1
  unfolding scan_block_comment
  Within-scan_block_comment ptr w = search (scan_rules, block_comment_loop)

  pub Within-scan_comment : (ptr : Ptr) → Within text n ptr → Within text n (scan_comment ptr).1
  unfolding scan_comment
  Within-scan_comment ptr w = search (scan_rules, Within-bump_until_eol, Within-scan_block_comment)
