-- ===== src/Grammar/MatchArms.antt =====
-- The match expressions of crates/ra_syntax/src/grammar/expressions/atom.rs.
use rust_analyzer.SyntaxKind
use rust_analyzer.TokenSet
use rust_analyzer.Base.{if◌then◌else◌, true}
use rust_analyzer.Grammar.Entries.{BlockLike, Grammar, is_block}
use rust_analyzer.Grammar.Heads.{expr, expr_no_struct, expr_stmt, pattern_}
use rust_analyzer.Grammar.Monad.{Gram, pure, when, while, ◌>>=◌, ◌>>◌}
use rust_analyzer.Grammar.Names.{error_block}
use rust_analyzer.Grammar.Ops.{
  assert_at, at, before, bump, comma_unless_at, complete, eat, error, expect, start,
}
use rust_analyzer.Parser.Api.{CompletedMarker}
use rust_analyzer.SyntaxKind.{SyntaxKind}
use rust_analyzer.TokenSet.{TokenSet}

-- match_arm
unfoldable pub match_arm : Grammar → Gram BlockLike
match_arm g = do
  m ← start
  eat SyntaxKind.pipe
  g.pattern_r TokenSet.empty
  while g.fuel (eat SyntaxKind.pipe) (do pattern_ g; pure true)
  guard ← eat SyntaxKind.if_kw
  when guard (do expr g; pure tt)
  expect SyntaxKind.fat_arrow
  ret ← expr_stmt g
  complete m SyntaxKind.match_arm
  pure ret

-- match_arm_list
unfoldable pub match_arm_list : Grammar → Gram (Unit {0})
match_arm_list g = do
  assert_at SyntaxKind.l_curly
  m ← start
  eat SyntaxKind.l_curly
  while g.fuel (before SyntaxKind.r_curly) (do
    curly ← at SyntaxKind.l_curly
    if curly then (do error_block g "expected match arm"; pure true) else (do
      arm ← match_arm g
      if is_block arm
          then (do eat SyntaxKind.comma; pure true)
          else (do comma_unless_at SyntaxKind.r_curly; pure true)))
  expect SyntaxKind.r_curly
  complete m SyntaxKind.match_arm_list
  pure tt

-- match_expr
unfoldable pub match_expr : Grammar → Gram CompletedMarker
match_expr g = do
  assert_at SyntaxKind.match_kw
  m ← start
  bump
  expr_no_struct g
  curly ← at SyntaxKind.l_curly
  (if curly then match_arm_list g else error "expected `{`")
  complete m SyntaxKind.match_expr
