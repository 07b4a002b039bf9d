-- ===== src/Grammar/Traits.antt =====
-- crates/ra_syntax/src/grammar/items/traits.rs, but for the lists of items.
use rust_analyzer.SyntaxKind
use rust_analyzer.Base.{Bool, false, if◌then◌else◌, true}
use rust_analyzer.Grammar.Entries.{Grammar}
use rust_analyzer.Grammar.Heads.{type_}
use rust_analyzer.Grammar.Monad.{Gram, and, or, pure, when, ◌>>=◌, ◌>>◌}
use rust_analyzer.Grammar.Names.{name_r}
use rust_analyzer.Grammar.Ops.{assert_at, at, bump, eat, error, nth_is}
use rust_analyzer.Grammar.Sets.{item_recovery_set}
use rust_analyzer.Grammar.TypeParams.{bounds, opt_type_param_list}
use rust_analyzer.Grammar.WhereClauses.{opt_where_clause}
use rust_analyzer.SyntaxKind.{SyntaxKind}

-- trait_def
unfoldable pub trait_def : Grammar → Gram (Unit {0})
trait_def g = do
  assert_at SyntaxKind.trait_kw
  bump
  name_r item_recovery_set
  opt_type_param_list g
  colon ← at SyntaxKind.colon
  when colon (bounds g)
  opt_where_clause g
  curly ← at SyntaxKind.l_curly
  if curly then g.trait_item_list else error "expected `{`"

-- choose_type_params_over_qpath
unfoldable pub choose_type_params_over_qpath : Gram Bool
choose_type_params_over_qpath = do
  angle ← at SyntaxKind.l_angle
  if angle
      then (do
        clear ← or (nth_is 1 SyntaxKind.pound) (nth_is 1 SyntaxKind.r_angle)
        if clear
            then pure true
            else and (or (nth_is 1 SyntaxKind.lifetime) (nth_is 1 SyntaxKind.ident)) (
                or (nth_is 2 SyntaxKind.r_angle) (
                  or (nth_is 2 SyntaxKind.comma)
                    (or (nth_is 2 SyntaxKind.colon) (nth_is 2 SyntaxKind.eq)))))
      else pure false

-- impl_type
unfoldable pub impl_type : Grammar → Gram (Unit {0})
impl_type g = do
  impl_kw ← at SyntaxKind.impl_kw
  if impl_kw then error "expected trait or type" else type_ g

-- impl_block
unfoldable pub impl_block : Grammar → Gram (Unit {0})
impl_block g = do
  assert_at SyntaxKind.impl_kw
  bump
  params ← choose_type_params_over_qpath
  when params (opt_type_param_list g)
  eat SyntaxKind.excl
  impl_type g
  for_kw ← eat SyntaxKind.for_kw
  when for_kw (impl_type g)
  opt_where_clause g
  curly ← at SyntaxKind.l_curly
  if curly then g.impl_item_list else error "expected `{`"
