-- ===== src/Grammar/Atoms.antt =====
-- crates/ra_syntax/src/grammar/expressions/atom.rs.
use rust_analyzer.Base
use rust_analyzer.SyntaxKind
use rust_analyzer.Base.{Bool, Option, false, if◌then◌else◌, none, some, true, ◌&&◌}
use rust_analyzer.Base.Loop.{Flow, again, stop}
use rust_analyzer.Grammar.Entries.{Grammar, Restrictions}
use rust_analyzer.Grammar.Heads.{expr, expr_no_struct, opt_fn_ret_type, pattern_}
use rust_analyzer.Grammar.Monad.{Gram, and, assert, loop, not, or, pure, when, while, ◌>>=◌, ◌>>◌}
use rust_analyzer.Grammar.Ops.{
  assert_at, at, at_ts, before, bump, complete, eat, error, expect, nth_is, start,
}
use rust_analyzer.Grammar.Params.{param_list_opt_types}
use rust_analyzer.Grammar.Sets.{expr_first}
use rust_analyzer.Parser.Api.{CompletedMarker, Marker}
use rust_analyzer.SyntaxKind.{SyntaxKind}

-- tuple_expr: whether a comma and an expression were seen.
unfoldable pub tuple_round : Grammar → Bool × Bool → Gram (Flow (Bool × Bool) (Bool × Bool))
tuple_round g (saw_comma, saw_expr) = do
  more ← before SyntaxKind.r_paren
  if more
      then (do
        first ← at_ts expr_first
        if first
            then (do
              expr g
              closed ← at SyntaxKind.r_paren
              if closed
                  then pure (again (saw_comma, true))
                  else (do expect SyntaxKind.comma; pure (again (true, true))))
            else (do error "expected expression"; pure (stop (saw_comma, true))))
      else pure (stop (saw_comma, saw_expr))

-- tuple_expr
unfoldable pub tuple_expr : Grammar → Gram CompletedMarker
tuple_expr g = do
  assert_at SyntaxKind.l_paren
  m ← start
  expect SyntaxKind.l_paren
  saw ← loop g.fuel (tuple_round g) (false, false)
  expect SyntaxKind.r_paren
  complete m (if saw.1 && Base.not saw.0 then SyntaxKind.paren_expr else SyntaxKind.tuple_expr)

-- array_expr
unfoldable pub array_expr : Grammar → Gram CompletedMarker
array_expr g = do
  assert_at SyntaxKind.l_brack
  m ← start
  bump
  empty ← eat SyntaxKind.r_brack
  if empty then complete m SyntaxKind.array_expr else (do
    expr g
    semi ← eat SyntaxKind.semi
    if semi then (do expr g; expect SyntaxKind.r_brack; complete m SyntaxKind.array_expr) else (do
      while g.fuel (before SyntaxKind.r_brack) (do
        expect SyntaxKind.comma
        closed ← at SyntaxKind.r_brack
        if closed then pure false else (do
          first ← at_ts expr_first
          if first then (do expr g; pure true) else (do error "expected expression"; pure false)))
      expect SyntaxKind.r_brack
      complete m SyntaxKind.array_expr))

-- lambda_expr
unfoldable pub lambda_expr : Grammar → Gram CompletedMarker
lambda_expr g = do
  here ← or (at SyntaxKind.pipe) (and (at SyntaxKind.move_kw) (nth_is 1 SyntaxKind.pipe))
  assert here
  m ← start
  eat SyntaxKind.move_kw
  param_list_opt_types g
  ret ← opt_fn_ret_type g
  when ret (do curly ← at SyntaxKind.l_curly; if curly then pure tt else error "expected `{`")
  expr g
  complete m SyntaxKind.lambda_expr

-- cond
unfoldable pub cond : Grammar → Gram (Unit {0})
cond g = do
  m ← start
  let_kw ← eat SyntaxKind.let_kw
  when let_kw (do pattern_ g; expect SyntaxKind.eq; pure tt)
  expr_no_struct g
  complete m SyntaxKind.condition
  pure tt

-- if_expr
unfoldable pub if_expr : Grammar → Gram CompletedMarker
if_expr g = do
  assert_at SyntaxKind.if_kw
  m ← start
  bump
  cond g
  g.block
  else_kw ← at SyntaxKind.else_kw
  when else_kw (do bump; if_kw ← at SyntaxKind.if_kw; if if_kw then g.if_expr else g.block)
  complete m SyntaxKind.if_expr

-- label
unfoldable pub label : Gram (Unit {0})
label = do
  here ← and (at SyntaxKind.lifetime) (nth_is 1 SyntaxKind.colon)
  assert here
  m ← start
  bump
  bump
  complete m SyntaxKind.label
  pure tt

-- `m.unwrap_or_else(|| p.start())`
unfoldable pub or_start : Option Marker → Gram Marker
or_start (some m) = pure m
or_start none = start

-- loop_expr
unfoldable pub loop_expr : Grammar → Option Marker → Gram CompletedMarker
loop_expr g marker = do
  assert_at SyntaxKind.loop_kw
  m ← or_start marker
  bump
  g.block
  complete m SyntaxKind.loop_expr

-- while_expr
unfoldable pub while_expr : Grammar → Option Marker → Gram CompletedMarker
while_expr g marker = do
  assert_at SyntaxKind.while_kw
  m ← or_start marker
  bump
  cond g
  g.block
  complete m SyntaxKind.while_expr

-- for_expr
unfoldable pub for_expr : Grammar → Option Marker → Gram CompletedMarker
for_expr g marker = do
  assert_at SyntaxKind.for_kw
  m ← or_start marker
  bump
  pattern_ g
  expect SyntaxKind.in_kw
  expr_no_struct g
  g.block
  complete m SyntaxKind.for_expr

-- block_expr
unfoldable pub block_expr : Grammar → Option Marker → Gram CompletedMarker
block_expr g marker = do
  assert_at SyntaxKind.l_curly
  m ← or_start marker
  g.block
  complete m SyntaxKind.block_expr

-- return_expr
unfoldable pub return_expr : Grammar → Gram CompletedMarker
return_expr g = do
  assert_at SyntaxKind.return_kw
  m ← start
  bump
  first ← at_ts expr_first
  when first (do expr g; pure tt)
  complete m SyntaxKind.return_expr

-- continue_expr
unfoldable pub continue_expr : Gram CompletedMarker
continue_expr = do
  assert_at SyntaxKind.continue_kw
  m ← start
  bump
  eat SyntaxKind.lifetime
  complete m SyntaxKind.continue_expr

-- break_expr
unfoldable pub break_expr : Grammar → Restrictions → Gram CompletedMarker
break_expr g r = do
  assert_at SyntaxKind.break_kw
  m ← start
  bump
  eat SyntaxKind.lifetime
  value ← and (at_ts expr_first) (not (and (pure r.forbid_structs) (at SyntaxKind.l_curly)))
  when value (do expr g; pure tt)
  complete m SyntaxKind.break_expr
