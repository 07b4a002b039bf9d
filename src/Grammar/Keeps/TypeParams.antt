-- ===== src/Grammar/Keeps/TypeParams.antt =====
-- What crates/ra_syntax/src/grammar/type_params.rs keeps, but for its where clauses.
use rust_analyzer.Base.{Bool, List, ℕ}
use rust_analyzer.Grammar.Entries.{Grammar}
use rust_analyzer.Grammar.Keeps.Auto.{keeps_rules}
use rust_analyzer.Grammar.Keeps.Entries.{Calls}
use rust_analyzer.Grammar.Keeps.Heads.{Call-path_type, Call-type_}
use rust_analyzer.Grammar.Keeps.Loops.{flow}
use rust_analyzer.Grammar.Keeps.Names.{Spend-name}
use rust_analyzer.Grammar.Keeps.Paths.{Spend-is_path_start}
use rust_analyzer.Grammar.Keeps.Rules.{Call, Spend, nothing}
use rust_analyzer.Grammar.TypeParams.{
  bound_end, bound_round, bounds, bounds_without_colon, for_binder, lifetime_bounds, lifetime_param,
  opt_type_param_list, type_param, type_param_list,
}
use rust_analyzer.Lexer.Tokenize.{Token}
use rust_analyzer.Parser.Input.{ParserInput}

module _ (tokens : List Token) (inp : ParserInput) where
  module _ (g : Grammar) (calls : Calls tokens inp g) where
    pub Call-lifetime_bounds : Call tokens inp g.fuel nothing (lifetime_bounds g)
    unfolding lifetime_bounds
    Call-lifetime_bounds = record { keeps = λ ks. search (keeps_rules) depth 40 fits 5000 }

    pub Call-lifetime_param : Call tokens inp g.fuel nothing (lifetime_param g)
    unfolding lifetime_param
    Call-lifetime_param = record {
      keeps = λ ks. search (Call-lifetime_bounds, keeps_rules) depth 40 fits 5000;
    }

  module _ {n : ℕ} where
    pub Call-bound_end :
        (has_paren : Bool) → Call tokens inp n (flow nothing nothing) (bound_end has_paren)
    unfolding bound_end
    Call-bound_end has_paren = record { keeps = λ ks. search (keeps_rules) depth 40 fits 5000 }

  module _ (g : Grammar) (calls : Calls tokens inp g) where
    pub Spend-bound_round :
        (s : Unit {0}) → Spend tokens inp g.fuel (flow nothing nothing) (bound_round g s)
    unfolding bound_round
    Spend-bound_round s = record {
      spends = λ ks.
          search (Call-bound_end, Spend-is_path_start, Call-path_type, keeps_rules) depth 40 fits
            5000;
    }

    pub Call-bounds_without_colon : Call tokens inp g.fuel nothing (bounds_without_colon g)
    unfolding bounds_without_colon
    Call-bounds_without_colon = record {
      keeps = λ ks. search (Spend-bound_round, keeps_rules) depth 40 fits 5000;
    }

    pub Call-bounds : Call tokens inp g.fuel nothing (bounds g)
    unfolding bounds
    Call-bounds = record {
      keeps = λ ks. search (Call-bounds_without_colon, keeps_rules) depth 40 fits 5000;
    }

    pub Call-type_param : Call tokens inp g.fuel nothing (type_param g)
    unfolding type_param
    Call-type_param = record {
      keeps = λ ks. search (Spend-name, Call-bounds, Call-type_, keeps_rules) depth 40 fits 5000;
    }

    pub Call-type_param_list : Call tokens inp g.fuel nothing (type_param_list g)
    unfolding type_param_list
    Call-type_param_list = record {
      keeps = λ ks. search (Call-lifetime_param, Call-type_param, keeps_rules) depth 40 fits 5000;
    }

    pub Call-opt_type_param_list : Call tokens inp g.fuel nothing (opt_type_param_list g)
    unfolding opt_type_param_list
    Call-opt_type_param_list = record {
      keeps = λ ks. search (Call-type_param_list, keeps_rules) depth 40 fits 5000;
    }

    pub Call-for_binder : Call tokens inp g.fuel nothing (for_binder g)
    unfolding for_binder
    Call-for_binder = record {
      keeps = λ ks. search (Call-opt_type_param_list, keeps_rules) depth 40 fits 5000;
    }
