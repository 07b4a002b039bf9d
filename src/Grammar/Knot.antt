-- ===== src/Grammar/Knot.antt =====
-- The functions of crates/ra_syntax/src/grammar/ that call themselves through others, put together.
-- The parser panics after 10,000,000 lookaheads, and a function looks ahead before it calls itself:
-- deeper calls than that there are not.
use rust_analyzer.Base.{ℕ, zero, suc, Option, none, some}
use rust_analyzer.Parser.Input.{ParserInput}
use rust_analyzer.Parser.Impl.{Parse, ParserImpl, max_steps}
use rust_analyzer.Grammar.Monad.{Gram, Outcome, returns, panics, spent, pure, ◌>>◌}
use rust_analyzer.Grammar.Entries.{Grammar}
use rust_analyzer.Grammar.Names.{error_block_go}
use rust_analyzer.Grammar.Attributes.{token_tree}
use rust_analyzer.Grammar.Types.{type_with_bounds_cond, path_type_, for_type}
use rust_analyzer.Grammar.Patterns.{pattern_r}
use rust_analyzer.Grammar.Expressions.{expr_bp}
use rust_analyzer.Grammar.Atoms.{if_expr}
use rust_analyzer.Grammar.Blocks.{block}
use rust_analyzer.Grammar.Contents.{
  mod_item_list, extern_item_list, trait_item_list, impl_item_list, root,
}
use rust_analyzer.Grammar.UseItems.{use_tree_list}

unfoldable pub if_stmt : Grammar → Gram (Unit {0})
if_stmt g = do if_expr g; pure tt

unfoldable pub grammar : ℕ → Grammar
grammar zero = record {
  fuel = 0;
  error_block = λ message inp p. spent;
  token_tree = λ inp p. spent;
  type_with_bounds_cond = λ allow_bounds inp p. spent;
  path_type_ = λ allow_bounds inp p. spent;
  for_type = λ inp p. spent;
  pattern_r = λ recovery_set inp p. spent;
  expr_bp = λ r bp inp p. spent;
  if_expr = λ inp p. spent;
  block = λ inp p. spent;
  mod_item_list = λ inp p. spent;
  extern_item_list = λ inp p. spent;
  trait_item_list = λ inp p. spent;
  impl_item_list = λ inp p. spent;
  use_tree_list = λ inp p. spent;
}
grammar (suc n) = record {
  fuel = suc n;
  error_block = λ message inp p. error_block_go (grammar n) message inp p;
  token_tree = λ inp p. token_tree (grammar n) inp p;
  type_with_bounds_cond =
      λ allow_bounds inp p. type_with_bounds_cond (grammar n) allow_bounds inp p;
  path_type_ = λ allow_bounds inp p. path_type_ (grammar n) allow_bounds inp p;
  for_type = λ inp p. for_type (grammar n) inp p;
  pattern_r = λ recovery_set inp p. pattern_r (grammar n) recovery_set inp p;
  expr_bp = λ r bp inp p. expr_bp (grammar n) r bp inp p;
  if_expr = λ inp p. if_stmt (grammar n) inp p;
  block = λ inp p. block (grammar n) inp p;
  mod_item_list = λ inp p. mod_item_list (grammar n) inp p;
  extern_item_list = λ inp p. extern_item_list (grammar n) inp p;
  trait_item_list = λ inp p. trait_item_list (grammar n) inp p;
  impl_item_list = λ inp p. impl_item_list (grammar n) inp p;
  use_tree_list = λ inp p. use_tree_list (grammar n) inp p;
}

-- One more than the lookaheads that the parser allows.
unfoldable pub enough : ℕ
enough = suc (suc max_steps)

-- What is left of an outcome: `none` is a panic. (With enough fuel the fuel does not run out.)
abbrev pub result : {A : Type 0} → Outcome A → Option (A × ParserImpl)
result (returns a q) = some (a, q)
result panics = none
result spent = none

-- root, of the whole grammar.
unfoldable pub parse_root : ParserInput → Parse (Unit {0})
parse_root inp p = result (root (grammar enough) inp p)
