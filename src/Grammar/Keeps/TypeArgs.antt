-- ===== src/Grammar/Keeps/TypeArgs.antt =====
-- What crates/ra_syntax/src/grammar/type_args.rs keeps.
use rust_analyzer.Base.{Bool, List}
use rust_analyzer.Grammar.Entries.{Grammar}
use rust_analyzer.Grammar.Keeps.Auto.{keeps_rules}
use rust_analyzer.Grammar.Keeps.Entries.{Calls}
use rust_analyzer.Grammar.Keeps.Heads.{Call-type_}
use rust_analyzer.Grammar.Keeps.Names.{Spend-name_ref}
use rust_analyzer.Grammar.Keeps.Rules.{Call, nothing}
use rust_analyzer.Grammar.TypeArgs.{opt_type_arg_list, type_arg, type_arg_list}
use rust_analyzer.Lexer.Tokenize.{Token}
use rust_analyzer.Parser.Api.{Marker}
use rust_analyzer.Parser.Input.{ParserInput}

module _ (tokens : List Token) (inp : ParserInput) where
  module _ (g : Grammar) (calls : Calls tokens inp g) where
    pub Call-type_arg : Call tokens inp g.fuel nothing (type_arg g)
    unfolding type_arg
    Call-type_arg = record {
      keeps = λ ks. search (Call-type_, Spend-name_ref, keeps_rules) depth 40 fits 5000;
    }

    pub Call-type_arg_list : (m : Marker) → Call tokens inp g.fuel nothing (type_arg_list g m)
    unfolding type_arg_list
    Call-type_arg_list m = record {
      keeps = λ ks. search (Call-type_arg, keeps_rules) depth 40 fits 5000;
    }

    pub Call-opt_type_arg_list :
        (colon_colon_required : Bool)
        → Call tokens inp g.fuel nothing (opt_type_arg_list g colon_colon_required)
    unfolding opt_type_arg_list
    Call-opt_type_arg_list colon_colon_required = record {
      keeps = λ ks. search (Call-type_arg_list, keeps_rules) depth 40 fits 5000;
    }
