-- ===== src/Grammar/Keeps/Params.antt =====
-- What crates/ra_syntax/src/grammar/params.rs keeps.
use rust_analyzer.Base.{Bool, List, false, suc, true, zero, ℕ}
use rust_analyzer.Grammar.Entries.{Grammar}
use rust_analyzer.Grammar.Keeps.Auto.{keeps_rules}
use rust_analyzer.Grammar.Keeps.Calls.{Spend-bump}
use rust_analyzer.Grammar.Keeps.Entries.{Calls}
use rust_analyzer.Grammar.Keeps.Heads.{Call-ascription, Call-pattern_, Call-type_}
use rust_analyzer.Grammar.Keeps.Rules.{Call, Call-Spend, Keeps-then, nothing}
use rust_analyzer.Grammar.Params.{
  Flavor, bump_times, list_, opt_self_param, param_list, param_list_opt_patterns,
  param_list_opt_types, pattern_parameter, self_param_end, value_parameter, value_parameter_of,
}
use rust_analyzer.Lexer.Tokenize.{Token}
use rust_analyzer.Parser.Api.{Marker}
use rust_analyzer.Parser.Input.{ParserInput}
use rust_analyzer.SyntaxKind.{SyntaxKind}

module _ (tokens : List Token) (inp : ParserInput) where
  module _ {n : ℕ} where
    pub Call-bump_times : (k : ℕ) → Call tokens inp n nothing (bump_times k)
    unfolding bump_times
    Call-bump_times zero = record { keeps = λ ks. search keeps_rules }
    Call-bump_times (suc k) = record {
      keeps = λ ks.
          Keeps-then tokens inp (Call-Spend tokens inp (Spend-bump tokens inp))
            λ _. (Call-bump_times k).keeps ks;
    }

    pub Call-self_param_end : (m : Marker) → Call tokens inp n nothing (self_param_end m)
    unfolding self_param_end
    Call-self_param_end m = record { keeps = λ ks. search (keeps_rules) depth 40 fits 5000 }

  module _ (g : Grammar) (calls : Calls tokens inp g) where
    pub Call-pattern_parameter :
        (required : Bool) → Call tokens inp g.fuel nothing (pattern_parameter g required)
    unfolding pattern_parameter
    Call-pattern_parameter required = record {
      keeps = λ ks. search (Call-pattern_, Call-ascription, keeps_rules) depth 40 fits 5000;
    }

    pub Call-value_parameter_of :
        (flavor : Flavor) → Call tokens inp g.fuel nothing (value_parameter_of g flavor)
    unfolding value_parameter_of
    Call-value_parameter_of Flavor.optional_type = Call-pattern_parameter false
    Call-value_parameter_of Flavor.normal = Call-pattern_parameter true
    Call-value_parameter_of Flavor.optional_pattern = record {
      keeps =
          λ ks. search (Call-pattern_, Call-ascription, Call-type_, keeps_rules) depth 40 fits 5000;
    }

    pub Call-value_parameter :
        (flavor : Flavor) → Call tokens inp g.fuel nothing (value_parameter g flavor)
    unfolding value_parameter
    Call-value_parameter flavor = record {
      keeps = λ ks. search (Call-value_parameter_of, keeps_rules) depth 40 fits 5000;
    }

    pub Call-opt_self_param : Call tokens inp g.fuel nothing (opt_self_param g)
    unfolding opt_self_param
    Call-opt_self_param = record {
      keeps = λ ks.
          search (Call-ascription, Call-self_param_end, Call-bump_times, keeps_rules) depth 40 fits
            5000;
    }

    pub Call-list_ :
        (flavor : Flavor) (bra ket : SyntaxKind)
        → Call tokens inp g.fuel nothing (list_ g flavor bra ket)
    unfolding list_
    Call-list_ flavor bra ket = record {
      keeps =
          λ ks. search (Call-opt_self_param, Call-value_parameter, keeps_rules) depth 40 fits 5000;
    }

    pub Call-param_list : Call tokens inp g.fuel nothing (param_list g)
    unfolding param_list
    Call-param_list = record { keeps = λ ks. search (Call-list_, keeps_rules) depth 40 fits 5000 }

    pub Call-param_list_opt_patterns : Call tokens inp g.fuel nothing (param_list_opt_patterns g)
    unfolding param_list_opt_patterns
    Call-param_list_opt_patterns = record {
      keeps = λ ks. search (Call-list_, keeps_rules) depth 40 fits 5000;
    }

    pub Call-param_list_opt_types : Call tokens inp g.fuel nothing (param_list_opt_types g)
    unfolding param_list_opt_types
    Call-param_list_opt_types = record {
      keeps = λ ks. search (Call-list_, keeps_rules) depth 40 fits 5000;
    }
