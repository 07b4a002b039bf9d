-- ===== src/Grammar/Exprs.antt =====
-- Postfix and path expressions of crates/ra_syntax/src/grammar/expressions.rs.
use rust_analyzer.Base
use rust_analyzer.SyntaxKind
use rust_analyzer.TokenSet
use rust_analyzer.Base.{Bool, false, if◌then◌else◌, true, ◌&&◌, ◌==◌, ◌||◌}
use rust_analyzer.Base.Loop.{Flow, again, stop}
use rust_analyzer.Grammar.Entries.{BlockLike, Grammar, Restrictions}
use rust_analyzer.Grammar.Heads.{expr, type_no_bounds}
use rust_analyzer.Grammar.Monad.{Gram, and, assert, loop, or, pure, when, while, ◌>>=◌, ◌>>◌}
use rust_analyzer.Grammar.Names.{error_block, name_ref}
use rust_analyzer.Grammar.Ops.{
  assert_at, at, at_neither, at_ts, before, bump, comma_unless_at, complete, current, eat,
  err_and_bump, error, expect, nth, nth_is, precede, start,
}
use rust_analyzer.Grammar.Paths.{expr_path, is_path_start}
use rust_analyzer.Grammar.Sets.{expr_first}
use rust_analyzer.Grammar.TypeArgs.{opt_type_arg_list}
use rust_analyzer.Parser.Api.{CompletedMarker}
use rust_analyzer.SyntaxKind.{SyntaxKind}
use rust_analyzer.TokenSet.{TokenSet}

-- items::macro_call_after_excl
unfoldable pub macro_call_after_excl : Grammar → Gram BlockLike
macro_call_after_excl g = do
  expect SyntaxKind.excl
  eat SyntaxKind.ident
  kind ← current
  if kind == SyntaxKind.l_curly
      then (do g.token_tree; pure BlockLike.block)
      else if kind == SyntaxKind.l_paren || kind == SyntaxKind.l_brack
      then (do g.token_tree; pure BlockLike.not_block)
      else (do error "expected `{`, `[`, `(`"; pure BlockLike.not_block)

-- A field of named_field_list.
unfoldable pub named_field : Grammar → Gram (Unit {0})
named_field g = do
  m ← start
  name_ref
  colon ← eat SyntaxKind.colon
  when colon (do expr g; pure tt)
  complete m SyntaxKind.named_field
  pure tt

-- named_field_list
unfoldable pub named_field_list : Grammar → Gram (Unit {0})
named_field_list g = do
  assert_at SyntaxKind.l_curly
  m ← start
  bump
  while g.fuel (before SyntaxKind.r_curly) (do
    kind ← current
    (if kind == SyntaxKind.ident
        then named_field g
        else if kind == SyntaxKind.dotdot
        then (do bump; expr g; pure tt)
        else if kind == SyntaxKind.l_curly
        then error_block g "expected a field"
        else err_and_bump "expected identifier")
    comma_unless_at SyntaxKind.r_curly
    pure true)
  expect SyntaxKind.r_curly
  complete m SyntaxKind.named_field_list
  pure tt

-- path_expr
unfoldable pub path_expr : Grammar → Restrictions → Gram (CompletedMarker × BlockLike)
path_expr g r = do
  here ← or is_path_start (at SyntaxKind.l_angle)
  assert here
  m ← start
  expr_path g
  kind ← current
  if kind == SyntaxKind.l_curly && Base.not r.forbid_structs
      then (do named_field_list g; c ← complete m SyntaxKind.struct_lit; pure (c, BlockLike.block))
      else if kind == SyntaxKind.excl
      then (do
        block_like ← macro_call_after_excl g
        c ← complete m SyntaxKind.macro_call
        pure (c, block_like))
      else (do c ← complete m SyntaxKind.path_expr; pure (c, BlockLike.not_block))

-- arg_list
unfoldable pub arg_list : Grammar → Gram (Unit {0})
arg_list g = do
  assert_at SyntaxKind.l_paren
  m ← start
  bump
  while g.fuel (at_neither SyntaxKind.r_paren SyntaxKind.eof) (do
    first ← at_ts expr_first
    if first
        then (do expr g; or (at SyntaxKind.r_paren) (expect SyntaxKind.comma))
        else (do error "expected expression"; pure false))
  eat SyntaxKind.r_paren
  complete m SyntaxKind.arg_list
  pure tt

-- call_expr
unfoldable pub call_expr : Grammar → CompletedMarker → Gram CompletedMarker
call_expr g lhs = do
  assert_at SyntaxKind.l_paren
  m ← precede lhs
  arg_list g
  complete m SyntaxKind.call_expr

-- index_expr
unfoldable pub index_expr : Grammar → CompletedMarker → Gram CompletedMarker
index_expr g lhs = do
  assert_at SyntaxKind.l_brack
  m ← precede lhs
  bump
  expr g
  expect SyntaxKind.r_brack
  complete m SyntaxKind.index_expr

-- What follows the dot of a method call.
unfoldable pub method_ahead : Gram Bool
method_ahead =
    and (nth_is 1 SyntaxKind.ident)
      (or (nth_is 2 SyntaxKind.l_paren) (nth_is 2 SyntaxKind.coloncolon))

-- method_call_expr
unfoldable pub method_call_expr : Grammar → CompletedMarker → Gram CompletedMarker
method_call_expr g lhs = do
  here ← and (at SyntaxKind.dot) method_ahead
  assert here
  m ← precede lhs
  bump
  name_ref
  opt_type_arg_list g true
  paren ← at SyntaxKind.l_paren
  when paren (arg_list g)
  complete m SyntaxKind.method_call_expr

-- field_expr
unfoldable pub field_expr : CompletedMarker → Gram CompletedMarker
field_expr lhs = do
  assert_at SyntaxKind.dot
  m ← precede lhs
  bump
  ident ← at SyntaxKind.ident
  (if ident then name_ref else (do
    number ← at SyntaxKind.int_number
    if number then bump else error "expected field name or number"))
  complete m SyntaxKind.field_expr

-- try_expr
unfoldable pub try_expr : CompletedMarker → Gram CompletedMarker
try_expr lhs = do
  assert_at SyntaxKind.question
  m ← precede lhs
  bump
  complete m SyntaxKind.try_expr

-- cast_expr
unfoldable pub cast_expr : Grammar → CompletedMarker → Gram CompletedMarker
cast_expr g lhs = do
  assert_at SyntaxKind.as_kw
  m ← precede lhs
  bump
  type_no_bounds g
  complete m SyntaxKind.cast_expr

-- An open range at the end of an expression.
unfoldable pub open_range : CompletedMarker → Gram CompletedMarker
open_range lhs = do m ← precede lhs; bump; complete m SyntaxKind.range_expr

-- A round of postfix_expr goes on with a new expression, with calls allowed.
unfoldable pub postfix_next :
    Gram CompletedMarker → Gram (Flow (CompletedMarker × Bool) CompletedMarker)
postfix_next m = do lhs ← m; pure (again (lhs, true))

unfoldable pub postfix_round :
    Grammar → CompletedMarker × Bool → Gram (Flow (CompletedMarker × Bool) CompletedMarker)
postfix_round g (lhs, allow_calls) = do
  kind ← current
  if kind == SyntaxKind.l_paren && allow_calls
      then postfix_next (call_expr g lhs)
      else if kind == SyntaxKind.l_brack && allow_calls
      then postfix_next (index_expr g lhs)
      else if kind == SyntaxKind.dot
      then (do
        method ← method_ahead
        if method then postfix_next (method_call_expr g lhs) else postfix_next (field_expr lhs))
      else if kind == SyntaxKind.dotdot || kind == SyntaxKind.dotdoteq
      then (do
        next ← nth 1
        if TokenSet.contains expr_first next
            then pure (stop lhs)
            else postfix_next (open_range lhs))
      else if kind == SyntaxKind.question
      then postfix_next (try_expr lhs)
      else if kind == SyntaxKind.as_kw
      then postfix_next (cast_expr g lhs)
      else pure (stop lhs)

-- postfix_expr
unfoldable pub postfix_expr : Grammar → CompletedMarker → Bool → Gram CompletedMarker
postfix_expr g lhs allow_calls = loop g.fuel (postfix_round g) (lhs, allow_calls)
