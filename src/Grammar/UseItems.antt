-- ===== src/Grammar/UseItems.antt =====
-- crates/ra_syntax/src/grammar/items/use_item.rs.
use rust_analyzer.SyntaxKind
use rust_analyzer.Base.{if◌then◌else◌, true, ◌&&◌, ◌==◌, ◌||◌}
use rust_analyzer.Grammar.Entries.{Grammar}
use rust_analyzer.Grammar.Monad.{Gram, pure, when, while, ◌>>=◌, ◌>>◌}
use rust_analyzer.Grammar.Names.{opt_alias}
use rust_analyzer.Grammar.Ops.{
  abandon, assert_at, at, before, bump, comma_unless_at, complete, current, err_and_bump, error,
  expect, nth, start,
}
use rust_analyzer.Grammar.Paths.{is_path_start, path, use_path}
use rust_analyzer.SyntaxKind.{SyntaxKind}

-- The end of a use tree after a path.
unfoldable pub use_tree_end : Grammar → Gram (Unit {0})
use_tree_end g = do
  kind ← current
  if kind == SyntaxKind.as_kw
      then opt_alias
      else if kind == SyntaxKind.coloncolon
      then (do
        bump
        next ← current
        if next == SyntaxKind.star
            then bump
            else if next == SyntaxKind.l_curly
            then g.use_tree_list
            else error "expected `{` or `*`")
      else pure tt

-- use_tree
unfoldable pub use_tree : Grammar → Gram (Unit {0})
use_tree g = do
  la ← nth 1
  m ← start
  kind ← current
  if kind == SyntaxKind.star
      then (do bump; complete m SyntaxKind.use_tree; pure tt)
      else if kind == SyntaxKind.coloncolon && la == SyntaxKind.star
      then (do bump; bump; complete m SyntaxKind.use_tree; pure tt)
      else if kind == SyntaxKind.l_curly
          || kind == SyntaxKind.coloncolon && la == SyntaxKind.l_curly
      then (do
        colons ← at SyntaxKind.coloncolon
        when colons bump
        g.use_tree_list
        complete m SyntaxKind.use_tree
        pure tt)
      else (do
        path ← is_path_start
        if path
            then (do use_path g; use_tree_end g; complete m SyntaxKind.use_tree; pure tt)
            else (do
              abandon m
              err_and_bump "expected one of `*`, `::`, `{`, `self`, `super` or an indentifier"))

-- use_item
unfoldable pub use_item : Grammar → Gram (Unit {0})
use_item g = do assert_at SyntaxKind.use_kw; bump; use_tree g; expect SyntaxKind.semi; pure tt

-- use_tree_list
unfoldable pub use_tree_list : Grammar → Gram (Unit {0})
use_tree_list g = do
  assert_at SyntaxKind.l_curly
  m ← start
  bump
  while g.fuel (before SyntaxKind.r_curly)
      (do use_tree g; comma_unless_at SyntaxKind.r_curly; pure true)
  expect SyntaxKind.r_curly
  complete m SyntaxKind.use_tree_list
  pure tt
