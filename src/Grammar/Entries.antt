-- ===== src/Grammar/Entries.antt =====
-- The functions of crates/ra_syntax/src/grammar/ through which the grammar calls itself.
use Prim.Native.String.{String}
use rust_analyzer.Base.{ℕ, Bool, true, false, Option}
use rust_analyzer.TokenSet.{TokenSet}
use rust_analyzer.Grammar.Monad.{Gram}

-- BlockLike
pub data BlockLike : Type 0 where
  block not_block : BlockLike

-- BlockLike::is_block
abbrev pub is_block : BlockLike → Bool
is_block block = true
is_block not_block = false

-- Restrictions
pub record Restrictions : Type 0 where
  pub forbid_structs : Bool
  pub prefer_stmt : Bool

-- A function of the grammar takes those that it calls, directly or not, and that call it. `fuel`
-- bounds the depth of these calls, and the rounds of each loop.
pub record Grammar : Type 0 where
  pub fuel : ℕ
  pub error_block : Option String → Gram (Unit {0})
  pub token_tree : Gram (Unit {0})
  pub type_with_bounds_cond : Bool → Gram (Unit {0})
  pub path_type_ : Bool → Gram (Unit {0})
  pub for_type : Gram (Unit {0})
  pub pattern_r : TokenSet → Gram (Unit {0})
  pub expr_bp : Restrictions → ℕ → Gram BlockLike
  pub if_expr : Gram (Unit {0})
  pub block : Gram (Unit {0})
  pub mod_item_list : Gram (Unit {0})
  pub extern_item_list : Gram (Unit {0})
  pub trait_item_list : Gram (Unit {0})
  pub impl_item_list : Gram (Unit {0})
  pub use_tree_list : Gram (Unit {0})
