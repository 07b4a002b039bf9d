-- ===== src/Grammar/Keeps/Types.antt =====
-- What crates/ra_syntax/src/grammar/types.rs keeps.
use rust_analyzer.Base.{Bool, List, ℕ}
use rust_analyzer.Grammar.Entries.{Grammar}
use rust_analyzer.Grammar.Keeps.Auto.{keeps_rules}
use rust_analyzer.Grammar.Keeps.Entries.{Calls}
use rust_analyzer.Grammar.Keeps.Heads.{
  Call-expr, Call-opt_fn_ret_type, Call-type_, Call-type_no_bounds,
}
use rust_analyzer.Grammar.Keeps.Loops.{flow}
use rust_analyzer.Grammar.Keeps.Names.{Spend-abi}
use rust_analyzer.Grammar.Keeps.Params.{Call-param_list_opt_patterns}
use rust_analyzer.Grammar.Keeps.Paths.{Call-type_path, Spend-is_path_start}
use rust_analyzer.Grammar.Keeps.Rules.{Call, Spend, nothing}
use rust_analyzer.Grammar.Keeps.TypeParams.{Call-bounds_without_colon, Call-for_binder}
use rust_analyzer.Grammar.Types.{
  array_or_slice_type, dyn_trait_type, fn_pointer_type, for_type, impl_trait_type, named_type,
  never_type, paren_or_tuple_type, paren_type_round, path_type_, placeholder_type, pointer_type,
  reference_type, type_with_bounds_cond,
}
use rust_analyzer.Lexer.Tokenize.{Token}
use rust_analyzer.Parser.Input.{ParserInput}
use rust_analyzer.SyntaxKind.{SyntaxKind}

module _ (tokens : List Token) (inp : ParserInput) where
  module _ {n : ℕ} where
    pub Call-never_type : Call tokens inp n nothing never_type
    unfolding never_type
    Call-never_type = record { keeps = λ ks. search (keeps_rules) depth 40 fits 5000 }

    pub Call-placeholder_type : Call tokens inp n nothing placeholder_type
    unfolding placeholder_type
    Call-placeholder_type = record { keeps = λ ks. search (keeps_rules) depth 40 fits 5000 }

  module _ (g : Grammar) (calls : Calls tokens inp g) where
    pub Spend-paren_type_round :
        (s : ℕ × Bool) → Spend tokens inp g.fuel (flow nothing nothing) (paren_type_round g s)
    unfolding paren_type_round
    Spend-paren_type_round s = record {
      spends = λ ks. search (Call-type_, keeps_rules) depth 40 fits 5000;
    }

    pub Call-paren_or_tuple_type : Call tokens inp g.fuel nothing (paren_or_tuple_type g)
    unfolding paren_or_tuple_type
    Call-paren_or_tuple_type = record {
      keeps = λ ks. search (Spend-paren_type_round, keeps_rules) depth 40 fits 5000;
    }

    pub Call-pointer_type : Call tokens inp g.fuel nothing (pointer_type g)
    unfolding pointer_type
    Call-pointer_type = record {
      keeps = λ ks. search (Call-type_no_bounds, keeps_rules) depth 40 fits 5000;
    }

    pub Call-array_or_slice_type : Call tokens inp g.fuel nothing (array_or_slice_type g)
    unfolding array_or_slice_type
    Call-array_or_slice_type = record {
      keeps = λ ks. search (Call-type_, Call-expr, keeps_rules) depth 40 fits 5000;
    }

    pub Call-reference_type : Call tokens inp g.fuel nothing (reference_type g)
    unfolding reference_type
    Call-reference_type = record {
      keeps = λ ks. search (Call-type_no_bounds, keeps_rules) depth 40 fits 5000;
    }

    pub Call-fn_pointer_type : Call tokens inp g.fuel nothing (fn_pointer_type g)
    unfolding fn_pointer_type
    Call-fn_pointer_type = record {
      keeps = λ ks.
          search (Spend-abi, Call-param_list_opt_patterns, Call-opt_fn_ret_type, keeps_rules) depth
            40 fits 5000;
    }

    pub Spend-for_type : Spend tokens inp g.fuel nothing (for_type g)
    unfolding for_type
    Spend-for_type = record {
      spends = λ ks.
          search (Call-for_binder, Call-fn_pointer_type, Spend-is_path_start, keeps_rules) depth 40
            fits 5000;
    }

    pub Call-impl_trait_type : Call tokens inp g.fuel nothing (impl_trait_type g)
    unfolding impl_trait_type
    Call-impl_trait_type = record {
      keeps = λ ks. search (Call-bounds_without_colon, keeps_rules) depth 40 fits 5000;
    }

    pub Call-dyn_trait_type : Call tokens inp g.fuel nothing (dyn_trait_type g)
    unfolding dyn_trait_type
    Call-dyn_trait_type = record {
      keeps = λ ks. search (Call-bounds_without_colon, keeps_rules) depth 40 fits 5000;
    }

    pub Spend-path_type_ :
        (allow_bounds : Bool) → Spend tokens inp g.fuel nothing (path_type_ g allow_bounds)
    unfolding path_type_
    Spend-path_type_ allow_bounds = record {
      spends = λ ks.
          search (Spend-is_path_start, Call-type_path, Call-bounds_without_colon, keeps_rules) depth
            40 fits 5000;
    }

    pub Call-named_type :
        (allow_bounds : Bool) (kind : SyntaxKind)
        → Call tokens inp g.fuel nothing (named_type g allow_bounds kind)
    unfolding named_type
    Call-named_type allow_bounds kind = record {
      keeps = λ ks.
          search (Call-impl_trait_type, Call-dyn_trait_type, Spend-is_path_start, keeps_rules) depth
            40 fits 5000;
    }

    pub Spend-type_with_bounds_cond :
        (allow_bounds : Bool)
        → Spend tokens inp g.fuel nothing (type_with_bounds_cond g allow_bounds)
    unfolding type_with_bounds_cond
    Spend-type_with_bounds_cond allow_bounds = record {
      spends = λ ks.
          search
            (
              Call-paren_or_tuple_type, Call-never_type, Call-pointer_type,
              Call-array_or_slice_type, Call-reference_type, Call-placeholder_type,
              Call-fn_pointer_type, Call-named_type, keeps_rules,
            )
            depth 40 fits 5000;
    }
