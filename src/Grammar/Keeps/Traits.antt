-- ===== src/Grammar/Keeps/Traits.antt =====
-- What crates/ra_syntax/src/grammar/items/traits.rs keeps, but for the lists of items.
use rust_analyzer.Base.{List, ℕ}
use rust_analyzer.Grammar.Entries.{Grammar}
use rust_analyzer.Grammar.Keeps.Auto.{keeps_rules}
use rust_analyzer.Grammar.Keeps.Entries.{Calls}
use rust_analyzer.Grammar.Keeps.Heads.{Call-type_}
use rust_analyzer.Grammar.Keeps.Names.{Spend-name_r}
use rust_analyzer.Grammar.Keeps.Rules.{Call, nothing}
use rust_analyzer.Grammar.Keeps.TypeParams.{Call-bounds, Call-opt_type_param_list}
use rust_analyzer.Grammar.Keeps.WhereClauses.{Call-opt_where_clause}
use rust_analyzer.Grammar.Traits.{choose_type_params_over_qpath, impl_block, impl_type, trait_def}
use rust_analyzer.Lexer.Tokenize.{Token}
use rust_analyzer.Parser.Input.{ParserInput}

module _ (tokens : List Token) (inp : ParserInput) where
  module _ {n : ℕ} where
    pub Call-choose_type_params_over_qpath : Call tokens inp n nothing choose_type_params_over_qpath
    unfolding choose_type_params_over_qpath
    Call-choose_type_params_over_qpath = record {
      keeps = λ ks. search (keeps_rules) depth 40 fits 5000;
    }

  module _ (g : Grammar) (calls : Calls tokens inp g) where
    pub Call-trait_def : Call tokens inp g.fuel nothing (trait_def g)
    unfolding trait_def
    Call-trait_def = record {
      keeps = λ ks.
          search
            (
              Spend-name_r, Call-opt_type_param_list, Call-bounds, Call-opt_where_clause,
              keeps_rules,
            )
            depth 40 fits 5000;
    }

    pub Call-impl_type : Call tokens inp g.fuel nothing (impl_type g)
    unfolding impl_type
    Call-impl_type = record { keeps = λ ks. search (Call-type_, keeps_rules) depth 40 fits 5000 }

    pub Call-impl_block : Call tokens inp g.fuel nothing (impl_block g)
    unfolding impl_block
    Call-impl_block = record {
      keeps = λ ks.
          search
            (
              Call-choose_type_params_over_qpath, Call-opt_type_param_list, Call-impl_type,
              Call-opt_where_clause, keeps_rules,
            )
            depth 40 fits 5000;
    }
