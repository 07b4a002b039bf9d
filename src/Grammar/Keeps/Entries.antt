-- ===== src/Grammar/Keeps/Entries.antt =====
-- What the functions through which the grammar calls itself keep (crates/ra_syntax/src/grammar/).
use Prim.Native.String.{String}
use rust_analyzer.Base.{ℕ, Bool, List, Option}
use rust_analyzer.Lexer.Tokenize.{Token}
use rust_analyzer.TokenSet.{TokenSet}
use rust_analyzer.Parser.Input.{ParserInput}
use rust_analyzer.Grammar.Entries.{Grammar, Restrictions}
use rust_analyzer.Grammar.Keeps.Rules.{Call, nothing}

module _ (tokens : List Token) (inp : ParserInput) where
  -- With as many lookaheads left as fuel, none runs out of fuel.
  pub record Calls (g : Grammar) : Type 0 where
    pub error_block :
        (message : Option String) → Call tokens inp g.fuel nothing (g.error_block message)
    pub token_tree : Call tokens inp g.fuel nothing g.token_tree
    pub type_with_bounds_cond :
        (allow_bounds : Bool)
        → Call tokens inp g.fuel nothing (g.type_with_bounds_cond allow_bounds)
    pub path_type_ :
        (allow_bounds : Bool) → Call tokens inp g.fuel nothing (g.path_type_ allow_bounds)
    pub for_type : Call tokens inp g.fuel nothing g.for_type
    pub pattern_r :
        (recovery_set : TokenSet) → Call tokens inp g.fuel nothing (g.pattern_r recovery_set)
    pub expr_bp : (r : Restrictions) (bp : ℕ) → Call tokens inp g.fuel nothing (g.expr_bp r bp)
    pub if_expr : Call tokens inp g.fuel nothing g.if_expr
    pub block : Call tokens inp g.fuel nothing g.block
    pub mod_item_list : Call tokens inp g.fuel nothing g.mod_item_list
    pub extern_item_list : Call tokens inp g.fuel nothing g.extern_item_list
    pub trait_item_list : Call tokens inp g.fuel nothing g.trait_item_list
    pub impl_item_list : Call tokens inp g.fuel nothing g.impl_item_list
    pub use_tree_list : Call tokens inp g.fuel nothing g.use_tree_list

  module _ (g : Grammar) (calls : Calls g) where
    pub Calls-error_block :
        (message : Option String) → Call tokens inp g.fuel nothing (g.error_block message)
    Calls-error_block = calls.error_block

    pub Calls-token_tree : Call tokens inp g.fuel nothing g.token_tree
    Calls-token_tree = calls.token_tree

    pub Calls-type_with_bounds_cond :
        (allow_bounds : Bool)
        → Call tokens inp g.fuel nothing (g.type_with_bounds_cond allow_bounds)
    Calls-type_with_bounds_cond = calls.type_with_bounds_cond

    pub Calls-path_type_ :
        (allow_bounds : Bool) → Call tokens inp g.fuel nothing (g.path_type_ allow_bounds)
    Calls-path_type_ = calls.path_type_

    pub Calls-for_type : Call tokens inp g.fuel nothing g.for_type
    Calls-for_type = calls.for_type

    pub Calls-pattern_r :
        (recovery_set : TokenSet) → Call tokens inp g.fuel nothing (g.pattern_r recovery_set)
    Calls-pattern_r = calls.pattern_r

    pub Calls-expr_bp :
        (r : Restrictions) (bp : ℕ) → Call tokens inp g.fuel nothing (g.expr_bp r bp)
    Calls-expr_bp = calls.expr_bp

    pub Calls-if_expr : Call tokens inp g.fuel nothing g.if_expr
    Calls-if_expr = calls.if_expr

    pub Calls-block : Call tokens inp g.fuel nothing g.block
    Calls-block = calls.block

    pub Calls-mod_item_list : Call tokens inp g.fuel nothing g.mod_item_list
    Calls-mod_item_list = calls.mod_item_list

    pub Calls-extern_item_list : Call tokens inp g.fuel nothing g.extern_item_list
    Calls-extern_item_list = calls.extern_item_list

    pub Calls-trait_item_list : Call tokens inp g.fuel nothing g.trait_item_list
    Calls-trait_item_list = calls.trait_item_list

    pub Calls-impl_item_list : Call tokens inp g.fuel nothing g.impl_item_list
    Calls-impl_item_list = calls.impl_item_list

    pub Calls-use_tree_list : Call tokens inp g.fuel nothing g.use_tree_list
    Calls-use_tree_list = calls.use_tree_list

pub ruleset entry_rules = (
  Calls-error_block, Calls-token_tree, Calls-type_with_bounds_cond, Calls-path_type_,
  Calls-for_type, Calls-pattern_r, Calls-expr_bp, Calls-if_expr, Calls-block, Calls-mod_item_list,
  Calls-extern_item_list, Calls-trait_item_list, Calls-impl_item_list, Calls-use_tree_list,
)
