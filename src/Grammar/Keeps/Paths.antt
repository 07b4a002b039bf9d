-- ===== src/Grammar/Keeps/Paths.antt =====
-- What crates/ra_syntax/src/grammar/paths.rs and opt_visibility of grammar.rs keep.
use rust_analyzer.Base.{Bool, List, true, ℕ}
use rust_analyzer.Grammar.Entries.{Grammar}
use rust_analyzer.Grammar.Keeps.Auto.{keeps_rules}
use rust_analyzer.Grammar.Keeps.Entries.{Calls}
use rust_analyzer.Grammar.Keeps.Heads.{Call-opt_fn_ret_type, Call-path_type, Call-type_}
use rust_analyzer.Grammar.Keeps.Loops.{flow}
use rust_analyzer.Grammar.Keeps.Names.{Spend-name_ref}
use rust_analyzer.Grammar.Keeps.Params.{Call-param_list_opt_patterns}
use rust_analyzer.Grammar.Keeps.Rules.{Call, Call-pure, Spend, SpendAt, completed, nothing}
use rust_analyzer.Grammar.Keeps.TypeArgs.{Call-opt_type_arg_list}
use rust_analyzer.Grammar.Paths.{
  Mode, expr_path, is_path_start, opt_path_type_args, opt_visibility, path, path_round,
  path_segment, type_path, use_path,
}
use rust_analyzer.Lexer.Tokenize.{Token}
use rust_analyzer.Parser.Api.{CompletedMarker}
use rust_analyzer.Parser.Input.{ParserInput}

module _ (tokens : List Token) (inp : ParserInput) where
  module _ {n : ℕ} where
    pub Spend-is_path_start : Spend tokens inp n nothing is_path_start
    unfolding is_path_start
    Spend-is_path_start = record { spends = λ ks. search (keeps_rules) depth 40 fits 5000 }

  module _ (g : Grammar) (calls : Calls tokens inp g) where
    pub Call-opt_path_type_args :
        (mode : Mode) → Call tokens inp g.fuel nothing (opt_path_type_args g mode)
    unfolding opt_path_type_args
    Call-opt_path_type_args Mode.use_mode = Call-pure tokens inp tt
    Call-opt_path_type_args Mode.type_mode = record {
      keeps = λ ks.
          search
            (
              Call-param_list_opt_patterns, Call-opt_fn_ret_type, Call-opt_type_arg_list,
              keeps_rules,
            )
            depth 40 fits 5000;
    }
    Call-opt_path_type_args Mode.expr_mode = Call-opt_type_arg_list tokens inp g calls true

    pub Call-path_segment :
        (mode : Mode) (first : Bool) → Call tokens inp g.fuel nothing (path_segment g mode first)
    unfolding path_segment
    Call-path_segment mode first = record {
      keeps = λ ks.
          search
            (
              Call-type_, Call-path_type, Spend-is_path_start, Spend-name_ref,
              Call-opt_path_type_args, keeps_rules,
            )
            depth 40 fits 5000;
    }

    pub SpendAt-path_round :
        (mode : Mode) (m : CompletedMarker)
        → SpendAt tokens inp g.fuel m.pos (flow completed nothing) (path_round g mode m)
    unfolding path_round
    SpendAt-path_round mode m = record {
      spends = λ ks has. search (Call-path_segment, keeps_rules) depth 40 fits 5000;
    }

    pub Call-path : (mode : Mode) → Call tokens inp g.fuel nothing (path g mode)
    unfolding path
    Call-path mode = record {
      keeps = λ ks. search (Call-path_segment, SpendAt-path_round, keeps_rules) depth 40 fits 5000;
    }

    pub Call-use_path : Call tokens inp g.fuel nothing (use_path g)
    unfolding use_path
    Call-use_path = record { keeps = λ ks. search (Call-path, keeps_rules) depth 40 fits 5000 }

    pub Call-type_path : Call tokens inp g.fuel nothing (type_path g)
    unfolding type_path
    Call-type_path = record { keeps = λ ks. search (Call-path, keeps_rules) depth 40 fits 5000 }

    pub Call-expr_path : Call tokens inp g.fuel nothing (expr_path g)
    unfolding expr_path
    Call-expr_path = record { keeps = λ ks. search (Call-path, keeps_rules) depth 40 fits 5000 }

    pub Spend-opt_visibility : Spend tokens inp g.fuel nothing (opt_visibility g)
    unfolding opt_visibility
    Spend-opt_visibility = record {
      spends = λ ks. search (Call-use_path, keeps_rules) depth 40 fits 5000;
    }
