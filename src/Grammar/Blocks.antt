-- ===== src/Grammar/Blocks.antt =====
-- The blocks of crates/ra_syntax/src/grammar/expressions.rs.
use rust_analyzer.SyntaxKind
use rust_analyzer.Base.{if◌then◌else◌, true, ◌==◌}
use rust_analyzer.Grammar.Entries.{Grammar, is_block}
use rust_analyzer.Grammar.Heads.{ascription, expr, expr_stmt, pattern_}
use rust_analyzer.Grammar.Items.{ItemFlavor, MaybeItem}
use rust_analyzer.Grammar.MaybeItems.{maybe_item}
use rust_analyzer.Grammar.Monad.{Gram, pure, when, while, ◌>>=◌, ◌>>◌}
use rust_analyzer.Grammar.Ops.{
  abandon, assert_at, at, before, bump, complete, current, eat, error, expect, start,
}
use rust_analyzer.Parser.Api.{Marker}
use rust_analyzer.SyntaxKind.{SyntaxKind}

-- let_stmt
unfoldable pub let_stmt : Grammar → Gram (Unit {0})
let_stmt g = do
  assert_at SyntaxKind.let_kw
  m ← start
  bump
  pattern_ g
  colon ← at SyntaxKind.colon
  when colon (ascription g)
  eq ← eat SyntaxKind.eq
  when eq (do expr g; pure tt)
  expect SyntaxKind.semi
  complete m SyntaxKind.let_stmt
  pure tt

-- What a block does with an item, or an expression.
unfoldable pub block_item : Grammar → Marker → MaybeItem → Gram (Unit {0})
block_item g m (MaybeItem.item kind) = do complete m kind; pure tt
block_item g m MaybeItem.modifiers = do abandon m; error "expected an item"
block_item g m MaybeItem.no_item = do
  is_blocklike ← expr_stmt g
  closed ← at SyntaxKind.r_curly
  if closed then (do abandon m; pure tt) else (do
    (if is_block is_blocklike then eat SyntaxKind.semi else expect SyntaxKind.semi)
    complete m SyntaxKind.expr_stmt
    pure tt)

unfoldable pub block_stmt : Grammar → Gram (Unit {0})
block_stmt g = do m ← start; item ← maybe_item g ItemFlavor.in_mod; block_item g m item

-- block
unfoldable pub block : Grammar → Gram (Unit {0})
block g = do
  curly ← at SyntaxKind.l_curly
  if curly
      then (do
        m ← start
        bump
        while g.fuel (before SyntaxKind.r_curly) (do
          kind ← current
          (if kind == SyntaxKind.let_kw
              then let_stmt g
              else if kind == SyntaxKind.semi
              then bump
              else block_stmt g)
          pure true)
        expect SyntaxKind.r_curly
        complete m SyntaxKind.block
        pure tt)
      else error "expected a block"
