-- ===== src/Grammar/TypeParams.antt =====
-- crates/ra_syntax/src/grammar/type_params.rs, but for its where clauses.
use rust_analyzer.SyntaxKind
use rust_analyzer.Base.{Bool, if◌then◌else◌, ◌==◌}
use rust_analyzer.Base.Loop.{Flow, again, stop}
use rust_analyzer.Grammar.Entries.{Grammar}
use rust_analyzer.Grammar.Heads.{path_type, type_}
use rust_analyzer.Grammar.Monad.{Gram, loop, or, pure, when, while, ◌>>=◌, ◌>>◌}
use rust_analyzer.Grammar.Names.{name}
use rust_analyzer.Grammar.Ops.{
  assert_at, at, before, bump, complete, current, eat, err_and_bump, error, expect, start,
}
use rust_analyzer.Grammar.Paths.{is_path_start, path}
use rust_analyzer.SyntaxKind.{SyntaxKind}

-- lifetime_bounds
unfoldable pub lifetime_bounds : Grammar → Gram (Unit {0})
lifetime_bounds g = do
  assert_at SyntaxKind.colon
  bump
  while g.fuel (at SyntaxKind.lifetime) (do bump; eat SyntaxKind.plus)

-- lifetime_param
unfoldable pub lifetime_param : Grammar → Gram (Unit {0})
lifetime_param g = do
  assert_at SyntaxKind.lifetime
  m ← start
  bump
  colon ← at SyntaxKind.colon
  when colon (lifetime_bounds g)
  complete m SyntaxKind.lifetime_param
  pure tt

-- The end of a round of bounds_without_colon.
unfoldable pub bound_end : Bool → Gram (Flow (Unit {0}) (Unit {0}))
bound_end has_paren = do
  when has_paren (do expect SyntaxKind.r_paren; pure tt)
  plus ← eat SyntaxKind.plus
  if plus then pure (again tt) else pure (stop tt)

unfoldable pub bound_round : Grammar → Unit {0} → Gram (Flow (Unit {0}) (Unit {0}))
bound_round g _ = do
  has_paren ← eat SyntaxKind.l_paren
  eat SyntaxKind.question
  kind ← current
  if kind == SyntaxKind.lifetime
      then (do bump; bound_end has_paren)
      else if kind == SyntaxKind.for_kw
      then (do g.for_type; bound_end has_paren)
      else (do
        path ← is_path_start
        if path then (do path_type g; bound_end has_paren) else pure (stop tt))

-- bounds_without_colon
unfoldable pub bounds_without_colon : Grammar → Gram (Unit {0})
bounds_without_colon g = loop g.fuel (bound_round g) tt

-- bounds
unfoldable pub bounds : Grammar → Gram (Unit {0})
bounds g = do assert_at SyntaxKind.colon; bump; bounds_without_colon g

-- type_param
unfoldable pub type_param : Grammar → Gram (Unit {0})
type_param g = do
  assert_at SyntaxKind.ident
  m ← start
  name
  colon ← at SyntaxKind.colon
  when colon (bounds g)
  eq ← at SyntaxKind.eq
  when eq (do bump; type_ g)
  complete m SyntaxKind.type_param
  pure tt

-- type_param_list
unfoldable pub type_param_list : Grammar → Gram (Unit {0})
type_param_list g = do
  assert_at SyntaxKind.l_angle
  m ← start
  bump
  while g.fuel (before SyntaxKind.r_angle) (do
    kind ← current
    (if kind == SyntaxKind.lifetime
        then lifetime_param g
        else if kind == SyntaxKind.ident
        then type_param g
        else err_and_bump "expected type parameter")
    or (at SyntaxKind.r_angle) (expect SyntaxKind.comma))
  expect SyntaxKind.r_angle
  complete m SyntaxKind.type_param_list
  pure tt

-- opt_type_param_list
unfoldable pub opt_type_param_list : Grammar → Gram (Unit {0})
opt_type_param_list g = do angle ← at SyntaxKind.l_angle; when angle (type_param_list g)

-- types::for_binder
unfoldable pub for_binder : Grammar → Gram (Unit {0})
for_binder g = do
  assert_at SyntaxKind.for_kw
  bump
  angle ← at SyntaxKind.l_angle
  if angle then opt_type_param_list g else error "expected `<`"
