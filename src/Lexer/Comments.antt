-- ===== src/Lexer/Comments.antt =====
-- crates/ra_syntax/src/lexer/comments.rs
pub mod Within
use rust_analyzer.Base.{
  ℕ, ◌+◌, ◌-◌, Bool, true, false, ◌||◌, [], ◌∷◌, Option, none, some, ◌==◌, if◌then◌else◌,
}
use rust_analyzer.Base.Loop.{Flow, again, stop, loop}
use rust_analyzer.SyntaxKind.{SyntaxKind, comment}
use rust_analyzer.Lexer.Ptr.{Ptr, current, at, at_str, bump, left, while_some}

bump_until_eol_round : Ptr → Flow Ptr Ptr
bump_until_eol_round ptr =
    if at ptr 10 || at_str ptr (13 ∷ 10 ∷ [])
    then stop ptr
    else while_some (current ptr) ptr (λ c. again (bump ptr))

unfoldable pub bump_until_eol : Ptr → Ptr
unfolding bump_until_eol_round
bump_until_eol = loop left bump_until_eol_round (λ ptr. ptr)

unfoldable pub scan_shebang : Ptr → Bool × Ptr
scan_shebang ptr =
    if at_str ptr (b'!' ∷ b'/' ∷ []) then (true, bump_until_eol (bump (bump ptr))) else (false, ptr)

-- One round of `while depth > 0`.
unfoldable pub block_comment_round : Ptr × ℕ → Flow (Ptr × ℕ) Ptr
block_comment_round (ptr, depth) =
    if depth == 0
    then stop ptr
    else if at_str ptr (b'*' ∷ b'/' ∷ [])
    then again (bump (bump ptr), depth - 1)
    else if at_str ptr (b'/' ∷ b'*' ∷ [])
    then again (bump (bump ptr), depth + 1)
    else while_some (current ptr) ptr (λ c. again (bump ptr, depth))

unfoldable pub scan_block_comment : Ptr → Option SyntaxKind × Ptr
unfolding block_comment_round
scan_block_comment ptr =
    if at ptr b'*'
    then (some comment, loop (λ (p, d). left p) block_comment_round (λ (p, d). p) (bump ptr, 1))
    else (none, ptr)

unfoldable pub scan_comment : Ptr → Option SyntaxKind × Ptr
scan_comment ptr =
    if at ptr b'/' then (some comment, bump_until_eol ptr) else scan_block_comment ptr
