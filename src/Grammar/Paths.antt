-- ===== src/Grammar/Paths.antt =====
-- crates/ra_syntax/src/grammar/paths.rs, and opt_visibility of grammar.rs.
use rust_analyzer.Base
use rust_analyzer.SyntaxKind
use rust_analyzer.Base.{Bool, false, if◌then◌else◌, true, ◌&&◌, ◌==◌, ◌||◌}
use rust_analyzer.Base.Loop.{Flow, again, stop}
use rust_analyzer.Grammar.Entries.{Grammar}
use rust_analyzer.Grammar.Heads.{opt_fn_ret_type, path_type, type_}
use rust_analyzer.Grammar.Monad.{Gram, loop, pure, when, ◌>>=◌, ◌>>◌}
use rust_analyzer.Grammar.Names.{name_ref}
use rust_analyzer.Grammar.Ops.{
  at, bump, complete, current, eat, err_recover, error, expect, nth, precede, start,
}
use rust_analyzer.Grammar.Params.{param_list_opt_patterns}
use rust_analyzer.Grammar.Sets.{item_recovery_set}
use rust_analyzer.Grammar.TypeArgs.{opt_type_arg_list}
use rust_analyzer.Parser.Api.{CompletedMarker}
use rust_analyzer.SyntaxKind.{SyntaxKind}

-- Mode
pub data Mode : Type 0 where
  use_mode type_mode expr_mode : Mode

-- is_path_start
unfoldable pub is_path_start : Gram Bool
is_path_start = do
  kind ← current
  pure (
      kind == SyntaxKind.ident
      || kind == SyntaxKind.self_kw
      || kind == SyntaxKind.super_kw
      || kind == SyntaxKind.crate_kw
      || kind == SyntaxKind.coloncolon)

-- opt_path_type_args
unfoldable pub opt_path_type_args : Grammar → Mode → Gram (Unit {0})
opt_path_type_args g use_mode = pure tt
opt_path_type_args g type_mode = do
  paren ← at SyntaxKind.l_paren
  if paren
      then (do param_list_opt_patterns g; opt_fn_ret_type g; pure tt)
      else opt_type_arg_list g false
opt_path_type_args g expr_mode = opt_type_arg_list g true

-- path_segment
unfoldable pub path_segment : Grammar → Mode → Bool → Gram (Unit {0})
path_segment g mode first = do
  m ← start
  angle ← (if first then eat SyntaxKind.l_angle else pure false)
  if angle
      then (do
        type_ g
        as_kw ← eat SyntaxKind.as_kw
        when as_kw (do path ← is_path_start; if path then path_type g else error "expected a trait")
        expect SyntaxKind.r_angle
        complete m SyntaxKind.path_segment
        pure tt)
      else (do
        when first (do eat SyntaxKind.coloncolon; pure tt)
        kind ← current
        (if kind == SyntaxKind.ident
            then (do name_ref; opt_path_type_args g mode)
            else if kind == SyntaxKind.self_kw
                || kind == SyntaxKind.super_kw
                || kind == SyntaxKind.crate_kw
            then bump
            else err_recover "expected identifier" item_recovery_set)
        complete m SyntaxKind.path_segment
        pure tt)

unfoldable pub path_round :
    Grammar → Mode → CompletedMarker → Gram (Flow CompletedMarker (Unit {0}))
path_round g mode qual = do
  kind ← nth 1
  here ← at SyntaxKind.coloncolon
  if here && Base.not (kind == SyntaxKind.star || kind == SyntaxKind.l_curly)
      then (do
        path ← precede qual
        bump
        path_segment g mode false
        path' ← complete path SyntaxKind.path
        pure (again path'))
      else pure (stop tt)

-- path
unfoldable pub path : Grammar → Mode → Gram (Unit {0})
path g mode = do
  path ← start
  path_segment g mode true
  qual ← complete path SyntaxKind.path
  loop g.fuel (path_round g mode) qual

-- use_path
unfoldable pub use_path : Grammar → Gram (Unit {0})
use_path g = path g use_mode

-- type_path
unfoldable pub type_path : Grammar → Gram (Unit {0})
type_path g = path g type_mode

-- expr_path
unfoldable pub expr_path : Grammar → Gram (Unit {0})
expr_path g = path g expr_mode

-- opt_visibility
unfoldable pub opt_visibility : Grammar → Gram (Unit {0})
opt_visibility g = do
  kind ← current
  if kind == SyntaxKind.pub_kw
      then (do
        m ← start
        bump
        paren ← at SyntaxKind.l_paren
        when paren (do
          next ← nth 1
          if next == SyntaxKind.crate_kw
                || next == SyntaxKind.self_kw
                || next == SyntaxKind.super_kw
              then (do bump; bump; expect SyntaxKind.r_paren; pure tt)
              else if next == SyntaxKind.in_kw
              then (do bump; bump; use_path g; expect SyntaxKind.r_paren; pure tt)
              else pure tt)
        complete m SyntaxKind.visibility
        pure tt)
      else if kind == SyntaxKind.crate_kw
      then (do m ← start; bump; complete m SyntaxKind.visibility; pure tt)
      else pure tt
