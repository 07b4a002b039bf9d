-- ===== src/Grammar/Attributes.antt =====
-- crates/ra_syntax/src/grammar/attributes.rs, and token_tree of grammar/items.rs.
use rust_analyzer.SyntaxKind
use rust_analyzer.Base.{Bool, false, if◌then◌else◌, true, ◌==◌, ◌||◌}
use rust_analyzer.Base.Loop.{Flow, again, stop}
use rust_analyzer.Grammar.Entries.{Grammar}
use rust_analyzer.Grammar.Monad.{Gram, and, loop, pure, unreachable, when, while, ◌>>=◌, ◌>>◌}
use rust_analyzer.Grammar.Ops.{
  assert_at, at, before, bump, complete, current, err_and_bump, error, expect, nth_is, start,
}
use rust_analyzer.SyntaxKind.{SyntaxKind}

-- The kind that closes what a kind opens.
unfoldable pub closing_paren_kind : SyntaxKind → Gram SyntaxKind
closing_paren_kind kind =
    if kind == SyntaxKind.l_curly
    then pure SyntaxKind.r_curly
    else if kind == SyntaxKind.l_paren
    then pure SyntaxKind.r_paren
    else if kind == SyntaxKind.l_brack
    then pure SyntaxKind.r_brack
    else unreachable

-- The loop of token_tree ends with `true` where it returns.
unfoldable pub token_tree_round : Grammar → SyntaxKind → Unit {0} → Gram (Flow (Unit {0}) Bool)
token_tree_round g closing _ = do
  more ← before closing
  if more
      then (do
        kind ← current
        if kind == SyntaxKind.l_curly || kind == SyntaxKind.l_paren || kind == SyntaxKind.l_brack
            then (do g.token_tree; pure (again tt))
            else if kind == SyntaxKind.r_curly
            then (do error "unmatched `}`"; pure (stop true))
            else if kind == SyntaxKind.r_paren || kind == SyntaxKind.r_brack
            then (do err_and_bump "unmatched brace"; pure (again tt))
            else (do bump; pure (again tt)))
      else pure (stop false)

-- token_tree
unfoldable pub token_tree : Grammar → Gram (Unit {0})
token_tree g = do
  kind ← current
  closing ← closing_paren_kind kind
  m ← start
  bump
  unmatched ← loop g.fuel (token_tree_round g closing) tt
  if unmatched
      then (do complete m SyntaxKind.token_tree; pure tt)
      else (do expect closing; complete m SyntaxKind.token_tree; pure tt)

-- attribute
unfoldable pub attribute : Grammar → Bool → Gram (Unit {0})
attribute g inner = do
  attr ← start
  assert_at SyntaxKind.pound
  bump
  when inner (do assert_at SyntaxKind.excl; bump)
  brack ← at SyntaxKind.l_brack
  (if brack then g.token_tree else error "expected `[`")
  complete attr SyntaxKind.attr
  pure tt

-- inner_attributes
unfoldable pub inner_attributes : Grammar → Gram (Unit {0})
inner_attributes g =
    while g.fuel (and (nth_is 0 SyntaxKind.pound) (nth_is 1 SyntaxKind.excl))
      (do attribute g true; pure true)

-- outer_attributes
unfoldable pub outer_attributes : Grammar → Gram (Unit {0})
outer_attributes g = while g.fuel (at SyntaxKind.pound) (do attribute g false; pure true)
