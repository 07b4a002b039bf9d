-- ===== src/Grammar/Items.antt =====
-- Single items of crates/ra_syntax/src/grammar/items.rs and grammar/items/consts.rs.
use rust_analyzer.SyntaxKind
use rust_analyzer.Base.{if◌then◌else◌}
use rust_analyzer.Grammar.Entries.{BlockLike, Grammar}
use rust_analyzer.Grammar.Exprs.{macro_call_after_excl}
use rust_analyzer.Grammar.Heads.{ascription, expr, opt_fn_ret_type, type_}
use rust_analyzer.Grammar.Monad.{Gram, assert, pure, when, ◌>>=◌, ◌>>◌}
use rust_analyzer.Grammar.Names.{name, name_r, opt_alias}
use rust_analyzer.Grammar.Ops.{assert_at, at, bump, eat, error, expect}
use rust_analyzer.Grammar.Params.{param_list, param_list_opt_patterns}
use rust_analyzer.Grammar.Paths.{is_path_start, use_path}
use rust_analyzer.Grammar.Sets.{item_recovery_set}
use rust_analyzer.Grammar.TypeParams.{bounds, opt_type_param_list}
use rust_analyzer.Grammar.WhereClauses.{opt_where_clause}
use rust_analyzer.SyntaxKind.{SyntaxKind}

-- ItemFlavor
pub data ItemFlavor : Type 0 where
  in_mod in_trait : ItemFlavor

-- MaybeItem
pub data MaybeItem : Type 0 where
  no_item modifiers : MaybeItem
  item : SyntaxKind → MaybeItem

-- extern_crate_item
unfoldable pub extern_crate_item : Gram (Unit {0})
extern_crate_item = do
  assert_at SyntaxKind.extern_kw
  bump
  assert_at SyntaxKind.crate_kw
  bump
  name
  opt_alias
  expect SyntaxKind.semi
  pure tt

unfoldable pub fn_params : Grammar → ItemFlavor → Gram (Unit {0})
fn_params g in_mod = param_list g
fn_params g in_trait = param_list_opt_patterns g

-- fn_def
unfoldable pub fn_def : Grammar → ItemFlavor → Gram (Unit {0})
fn_def g flavor = do
  assert_at SyntaxKind.fn_kw
  bump
  name_r item_recovery_set
  opt_type_param_list g
  paren ← at SyntaxKind.l_paren
  (if paren then fn_params g flavor else error "expected function arguments")
  opt_fn_ret_type g
  opt_where_clause g
  semi ← at SyntaxKind.semi
  if semi then bump else g.block

-- type_def
unfoldable pub type_def : Grammar → Gram (Unit {0})
type_def g = do
  assert_at SyntaxKind.type_kw
  bump
  name
  opt_type_param_list g
  colon ← at SyntaxKind.colon
  when colon (bounds g)
  opt_where_clause g
  eq ← eat SyntaxKind.eq
  when eq (type_ g)
  expect SyntaxKind.semi
  pure tt

-- mod_item
unfoldable pub mod_item : Grammar → Gram (Unit {0})
mod_item g = do
  assert_at SyntaxKind.mod_kw
  bump
  name
  curly ← at SyntaxKind.l_curly
  if curly
      then g.mod_item_list
      else (do semi ← eat SyntaxKind.semi; if semi then pure tt else error "expected `;` or `{`")

-- macro_call
unfoldable pub macro_call : Grammar → Gram BlockLike
macro_call g = do here ← is_path_start; assert here; use_path g; macro_call_after_excl g

-- consts::const_or_static
unfoldable pub const_or_static : Grammar → SyntaxKind → Gram (Unit {0})
const_or_static g kw = do
  assert_at kw
  bump
  eat SyntaxKind.mut_kw
  name
  ascription g
  eq ← eat SyntaxKind.eq
  when eq (do expr g; pure tt)
  expect SyntaxKind.semi
  pure tt

-- consts::static_def
unfoldable pub static_def : Grammar → Gram (Unit {0})
static_def g = const_or_static g SyntaxKind.static_kw

-- consts::const_def
unfoldable pub const_def : Grammar → Gram (Unit {0})
const_def g = const_or_static g SyntaxKind.const_kw
