-- ===== src/Grammar/Expressions.antt =====
-- crates/ra_syntax/src/grammar/expressions.rs: binary expressions and their operands.
use rust_analyzer.Base
use rust_analyzer.SyntaxKind
use rust_analyzer.Base.{Bool, Option, if◌then◌else◌, ltb, none, some, ℕ, ◌&&◌, ◌+◌, ◌==◌, ◌||◌}
use rust_analyzer.Base.Loop.{Flow, again, stop}
use rust_analyzer.Grammar.Atoms.{
  array_expr, block_expr, break_expr, continue_expr, for_expr, if_expr, label, lambda_expr,
  loop_expr, return_expr, tuple_expr, while_expr,
}
use rust_analyzer.Grammar.Entries.{BlockLike, Grammar, Restrictions, is_block}
use rust_analyzer.Grammar.Exprs.{path_expr, postfix_expr}
use rust_analyzer.Grammar.MatchArms.{match_expr}
use rust_analyzer.Grammar.Monad.{Gram, loop, or, pure, when, ◌>>=◌, ◌>>◌}
use rust_analyzer.Grammar.Ops.{
  at, at_ts, bump, bump_compound, complete, current, eat, err_recover, error, next2, next3, nth,
  nth_is, precede, start,
}
use rust_analyzer.Grammar.Paths.{is_path_start, path}
use rust_analyzer.Grammar.Patterns.{literal}
use rust_analyzer.Grammar.Sets.{expr_first, expr_recovery_set}
use rust_analyzer.Parser.Api.{CompletedMarker, Marker}
use rust_analyzer.SyntaxKind.{SyntaxKind}

-- Op
pub data Op : Type 0 where
  simple : Op
  composite : SyntaxKind → ℕ → Op

-- The operators of three tokens.
unfoldable pub op_of_three : SyntaxKind × SyntaxKind × SyntaxKind → Option (ℕ × Op)
op_of_three (a, b, c) =
    if a == SyntaxKind.l_angle && b == SyntaxKind.l_angle && c == SyntaxKind.eq
    then some (1, composite SyntaxKind.shleq 3)
    else if a == SyntaxKind.r_angle && b == SyntaxKind.r_angle && c == SyntaxKind.eq
    then some (1, composite SyntaxKind.shreq 3)
    else none

-- The operators of two tokens that end with `=`.
unfoldable pub assign_op : SyntaxKind → Option (ℕ × Op)
assign_op a =
    if a == SyntaxKind.plus
    then some (1, composite SyntaxKind.pluseq 2)
    else if a == SyntaxKind.minus
    then some (1, composite SyntaxKind.minuseq 2)
    else if a == SyntaxKind.star
    then some (1, composite SyntaxKind.stareq 2)
    else if a == SyntaxKind.slash
    then some (1, composite SyntaxKind.slasheq 2)
    else if a == SyntaxKind.pipe
    then some (1, composite SyntaxKind.pipeeq 2)
    else if a == SyntaxKind.amp
    then some (1, composite SyntaxKind.ampeq 2)
    else if a == SyntaxKind.caret
    then some (1, composite SyntaxKind.careteq 2)
    else if a == SyntaxKind.l_angle
    then some (5, composite SyntaxKind.lteq 2)
    else if a == SyntaxKind.r_angle
    then some (5, composite SyntaxKind.gteq 2)
    else none

-- The operators of two tokens.
unfoldable pub op_of_two : SyntaxKind × SyntaxKind → Option (ℕ × Op)
op_of_two (a, b) =
    if b == SyntaxKind.eq
    then assign_op a
    else if a == SyntaxKind.pipe && b == SyntaxKind.pipe
    then some (3, composite SyntaxKind.pipepipe 2)
    else if a == SyntaxKind.amp && b == SyntaxKind.amp
    then some (4, composite SyntaxKind.ampamp 2)
    else if a == SyntaxKind.l_angle && b == SyntaxKind.l_angle
    then some (9, composite SyntaxKind.shl 2)
    else if a == SyntaxKind.r_angle && b == SyntaxKind.r_angle
    then some (9, composite SyntaxKind.shr 2)
    else none

-- The binding power of an operator of one token; 0 for none.
unfoldable pub simple_bp : SyntaxKind → ℕ
simple_bp kind =
    if kind == SyntaxKind.eq
    then 1
    else if kind == SyntaxKind.dotdot || kind == SyntaxKind.dotdoteq
    then 2
    else if kind == SyntaxKind.eqeq
        || kind == SyntaxKind.neq
        || kind == SyntaxKind.l_angle
        || kind == SyntaxKind.r_angle
    then 5
    else if kind == SyntaxKind.pipe
    then 6
    else if kind == SyntaxKind.caret
    then 7
    else if kind == SyntaxKind.amp
    then 8
    else if kind == SyntaxKind.minus || kind == SyntaxKind.plus
    then 10
    else if kind == SyntaxKind.star || kind == SyntaxKind.slash || kind == SyntaxKind.percent
    then 11
    else 0

-- `if let Some(t) = found { match t { … return … } }`
unfoldable pub returned_or :
    {A : Type 0} → Option A → (A → Option (ℕ × Op)) → Gram (ℕ × Op) → Gram (ℕ × Op)
returned_or none f rest = rest
returned_or (some t) f rest = elim (f t) [ some op ↦ pure op | none ↦ rest ]

-- current_op
unfoldable pub current_op : Gram (ℕ × Op)
current_op = do
  three ← next3
  returned_or three op_of_three
      do two ← next2; returned_or two op_of_two do kind ← current; pure (simple_bp kind, simple)

unfoldable pub take_op : Op → Gram (Unit {0})
take_op simple = bump
take_op (composite kind n) = bump_compound kind n

-- What a round of expr_bp does with an operator.
unfoldable pub apply_op :
    Grammar → Restrictions → Bool → CompletedMarker → ℕ × Op → Gram (Flow CompletedMarker BlockLike)
apply_op g r is_range lhs (op_bp, op) = do
  m ← precede lhs
  take_op op
  g.expr_bp r (op_bp + 1)
  c ← complete m (if is_range then SyntaxKind.range_expr else SyntaxKind.bin_expr)
  pure (again c)

unfoldable pub expr_round :
    Grammar → Restrictions → ℕ → CompletedMarker → Gram (Flow CompletedMarker BlockLike)
expr_round g r bp lhs = do
  is_range ← or (nth_is 0 SyntaxKind.dotdot) (nth_is 0 SyntaxKind.dotdoteq)
  op ← current_op
  if ltb op.0 bp then pure (stop BlockLike.not_block) else apply_op g r is_range lhs op

-- What atom_expr does for `done`.
unfoldable pub blocklike_of : SyntaxKind → BlockLike
blocklike_of kind =
    if kind == SyntaxKind.if_expr
      || kind == SyntaxKind.while_expr
      || kind == SyntaxKind.for_expr
      || kind == SyntaxKind.loop_expr
      || kind == SyntaxKind.match_expr
      || kind == SyntaxKind.block_expr
    then BlockLike.block
    else BlockLike.not_block

unfoldable pub done : Gram CompletedMarker → Gram (Option (CompletedMarker × BlockLike))
done m = do c ← m; pure (some (c, blocklike_of c.kind))

-- A label, and what it labels.
unfoldable pub labelled : Grammar → Gram (Option (CompletedMarker × BlockLike))
labelled g = do
  m ← start
  label
  kind ← current
  if kind == SyntaxKind.loop_kw
      then done (loop_expr g (some m))
      else if kind == SyntaxKind.for_kw
      then done (for_expr g (some m))
      else if kind == SyntaxKind.while_kw
      then done (while_expr g (some m))
      else if kind == SyntaxKind.l_curly
      then done (block_expr g (some m))
      else (do error "expected a loop"; complete m SyntaxKind.error; pure none)

unfoldable pub unsafe_block : Grammar → Gram CompletedMarker
unsafe_block g = do m ← start; bump; block_expr g (some m)

unfoldable pub if_or_loop :
    Grammar
    → SyntaxKind
    → SyntaxKind
    → Gram (Option (CompletedMarker × BlockLike))
    → Gram (Option (CompletedMarker × BlockLike))
if_or_loop g kind la others =
    if kind == SyntaxKind.if_kw
    then done (if_expr g)
    else if kind == SyntaxKind.loop_kw
    then done (loop_expr g none)
    else if kind == SyntaxKind.for_kw
    then done (for_expr g none)
    else if kind == SyntaxKind.while_kw
    then done (while_expr g none)
    else if kind == SyntaxKind.lifetime && la == SyntaxKind.colon
    then labelled g
    else others

unfoldable pub block_or_jump :
    Grammar → Restrictions → SyntaxKind → SyntaxKind → Gram (Option (CompletedMarker × BlockLike))
block_or_jump g r kind la =
    if kind == SyntaxKind.match_kw
    then done (match_expr g)
    else if kind == SyntaxKind.unsafe_kw && la == SyntaxKind.l_curly
    then done (unsafe_block g)
    else if kind == SyntaxKind.l_curly
    then done (block_expr g none)
    else if kind == SyntaxKind.return_kw
    then done (return_expr g)
    else if kind == SyntaxKind.continue_kw
    then done continue_expr
    else if kind == SyntaxKind.break_kw
    then done (break_expr g r)
    else (do err_recover "expected expression" expr_recovery_set; pure none)

-- The `match` of atom_expr.
unfoldable pub atom_of :
    Grammar → Restrictions → SyntaxKind → SyntaxKind → Gram (Option (CompletedMarker × BlockLike))
atom_of g r kind la =
    if kind == SyntaxKind.l_paren
    then done (tuple_expr g)
    else if kind == SyntaxKind.l_brack
    then done (array_expr g)
    else if kind == SyntaxKind.pipe
    then done (lambda_expr g)
    else if kind == SyntaxKind.move_kw && la == SyntaxKind.pipe
    then done (lambda_expr g)
    else if_or_loop g kind la (block_or_jump g r kind la)

-- What atom_expr does after it has looked for a literal.
unfoldable pub literal_or_atom :
    Grammar → Restrictions → Option CompletedMarker → Gram (Option (CompletedMarker × BlockLike))
literal_or_atom g r (some m) = pure (some (m, BlockLike.not_block))
literal_or_atom g r none = do
  path ← or is_path_start (at SyntaxKind.l_angle)
  if path
      then (do e ← path_expr g r; pure (some e))
      else (do la ← nth 1; kind ← current; atom_of g r kind la)

-- atom_expr
unfoldable pub atom_expr : Grammar → Restrictions → Gram (Option (CompletedMarker × BlockLike))
atom_expr g r = do found ← literal; literal_or_atom g r found

-- What lhs does with an atom.
unfoldable pub postfix_of :
    Grammar
    → Restrictions
    → Option (CompletedMarker × BlockLike)
    → Gram (Option (CompletedMarker × BlockLike))
postfix_of g r none = pure none
postfix_of g r (some (e, blocklike)) = do
  c ← postfix_expr g e (Base.not (r.prefer_stmt && is_block blocklike))
  pure (some (c, blocklike))

-- What lhs does after a prefix.
unfoldable pub prefix_end :
    Grammar → Restrictions → Marker → SyntaxKind → Gram (Option (CompletedMarker × BlockLike))
prefix_end g r m kind = do
  g.expr_bp r 255
  c ← complete m kind
  pure (some (c, BlockLike.not_block))

-- lhs
unfoldable pub lhs : Grammar → Restrictions → Gram (Option (CompletedMarker × BlockLike))
lhs g r = do
  kind ← current
  if kind == SyntaxKind.amp
      then (do m ← start; bump; eat SyntaxKind.mut_kw; prefix_end g r m SyntaxKind.ref_expr)
      else if kind == SyntaxKind.star || kind == SyntaxKind.excl || kind == SyntaxKind.minus
      then (do m ← start; bump; prefix_end g r m SyntaxKind.prefix_expr)
      else if kind == SyntaxKind.dotdot || kind == SyntaxKind.dotdoteq
      then (do
        m ← start
        bump
        first ← at_ts expr_first
        when first (do g.expr_bp r 2; pure tt)
        c ← complete m SyntaxKind.range_expr
        pure (some (c, BlockLike.not_block)))
      else (do atom ← atom_expr g r; postfix_of g r atom)

-- What expr_bp does after its first operand.
unfoldable pub operators :
    Grammar → Restrictions → ℕ → Option (CompletedMarker × BlockLike) → Gram BlockLike
operators g r bp none = pure BlockLike.not_block
operators g r bp (some (e, blocklike)) =
    if r.prefer_stmt && is_block blocklike
    then pure BlockLike.block
    else loop g.fuel (expr_round g r bp) e

-- expr_bp
unfoldable pub expr_bp : Grammar → Restrictions → ℕ → Gram BlockLike
expr_bp g r bp = do first ← lhs g r; operators g r bp first
