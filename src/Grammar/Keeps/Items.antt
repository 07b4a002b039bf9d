-- ===== src/Grammar/Keeps/Items.antt =====
-- What single items of crates/ra_syntax/src/grammar/items.rs and items/consts.rs keep.
use rust_analyzer.Base.{List, ℕ}
use rust_analyzer.Grammar.Entries.{Grammar}
use rust_analyzer.Grammar.Items.{
  ItemFlavor, const_def, const_or_static, extern_crate_item, fn_def, fn_params, macro_call,
  mod_item, static_def, type_def,
}
use rust_analyzer.Grammar.Keeps.Auto.{keeps_rules}
use rust_analyzer.Grammar.Keeps.Entries.{Calls}
use rust_analyzer.Grammar.Keeps.Exprs.{Call-macro_call_after_excl}
use rust_analyzer.Grammar.Keeps.Heads.{Call-ascription, Call-expr, Call-opt_fn_ret_type, Call-type_}
use rust_analyzer.Grammar.Keeps.Names.{Spend-name, Spend-name_r, Spend-opt_alias}
use rust_analyzer.Grammar.Keeps.Params.{Call-param_list, Call-param_list_opt_patterns}
use rust_analyzer.Grammar.Keeps.Paths.{Call-use_path, Spend-is_path_start}
use rust_analyzer.Grammar.Keeps.Rules.{Call, nothing}
use rust_analyzer.Grammar.Keeps.TypeParams.{Call-bounds, Call-opt_type_param_list}
use rust_analyzer.Grammar.Keeps.WhereClauses.{Call-opt_where_clause}
use rust_analyzer.Lexer.Tokenize.{Token}
use rust_analyzer.Parser.Input.{ParserInput}
use rust_analyzer.SyntaxKind.{SyntaxKind}

module _ (tokens : List Token) (inp : ParserInput) where
  module _ {n : ℕ} where
    pub Call-extern_crate_item : Call tokens inp n nothing extern_crate_item
    unfolding extern_crate_item
    Call-extern_crate_item = record {
      keeps = λ ks. search (Spend-name, Spend-opt_alias, keeps_rules) depth 40 fits 5000;
    }

  module _ (g : Grammar) (calls : Calls tokens inp g) where
    Call-fn_params : (flavor : ItemFlavor) → Call tokens inp g.fuel nothing (fn_params g flavor)
    unfolding fn_params
    Call-fn_params ItemFlavor.in_mod = Call-param_list tokens inp g calls
    Call-fn_params ItemFlavor.in_trait = Call-param_list_opt_patterns tokens inp g calls

    pub Call-fn_def : (flavor : ItemFlavor) → Call tokens inp g.fuel nothing (fn_def g flavor)
    unfolding fn_def
    Call-fn_def flavor = record {
      keeps = λ ks.
          search
            (
              Spend-name_r, Call-opt_type_param_list, Call-fn_params, Call-opt_fn_ret_type,
              Call-opt_where_clause, keeps_rules,
            )
            depth 40 fits 5000;
    }

    pub Call-type_def : Call tokens inp g.fuel nothing (type_def g)
    unfolding type_def
    Call-type_def = record {
      keeps = λ ks.
          search
            (
              Spend-name, Call-opt_type_param_list, Call-bounds, Call-opt_where_clause, Call-type_,
              keeps_rules,
            )
            depth 40 fits 5000;
    }

    pub Call-mod_item : Call tokens inp g.fuel nothing (mod_item g)
    unfolding mod_item
    Call-mod_item = record { keeps = λ ks. search (Spend-name, keeps_rules) depth 40 fits 5000 }

    pub Call-macro_call : Call tokens inp g.fuel nothing (macro_call g)
    unfolding macro_call
    Call-macro_call = record {
      keeps = λ ks.
          search (Spend-is_path_start, Call-use_path, Call-macro_call_after_excl, keeps_rules) depth
            40 fits 5000;
    }

    pub Call-const_or_static :
        (kw : SyntaxKind) → Call tokens inp g.fuel nothing (const_or_static g kw)
    unfolding const_or_static
    Call-const_or_static kw = record {
      keeps = λ ks. search (Spend-name, Call-ascription, Call-expr, keeps_rules) depth 40 fits 5000;
    }

    pub Call-static_def : Call tokens inp g.fuel nothing (static_def g)
    unfolding static_def
    Call-static_def = record {
      keeps = λ ks. search (Call-const_or_static, keeps_rules) depth 40 fits 5000;
    }

    pub Call-const_def : Call tokens inp g.fuel nothing (const_def g)
    unfolding const_def
    Call-const_def = record {
      keeps = λ ks. search (Call-const_or_static, keeps_rules) depth 40 fits 5000;
    }
