-- ===== src/Grammar/Keeps/Heads.antt =====
-- What the functions that call one other keep (crates/ra_syntax/src/grammar/).
use rust_analyzer.Base.{List}
use rust_analyzer.Grammar.Entries.{Grammar}
use rust_analyzer.Grammar.Heads.{
  ascription, expr, expr_no_struct, expr_stmt, opt_fn_ret_type, path_type, pattern_, type_,
  type_no_bounds,
}
use rust_analyzer.Grammar.Keeps.Auto.{keeps_rules}
use rust_analyzer.Grammar.Keeps.Entries.{Calls}
use rust_analyzer.Grammar.Keeps.Rules.{Call, nothing}
use rust_analyzer.Lexer.Tokenize.{Token}
use rust_analyzer.Parser.Input.{ParserInput}

module _ (tokens : List Token) (inp : ParserInput) where
  module _ (g : Grammar) (calls : Calls tokens inp g) where
    pub Call-type_ : Call tokens inp g.fuel nothing (type_ g)
    unfolding type_
    Call-type_ = record { keeps = λ ks. search (keeps_rules) depth 40 fits 5000 }

    pub Call-type_no_bounds : Call tokens inp g.fuel nothing (type_no_bounds g)
    unfolding type_no_bounds
    Call-type_no_bounds = record { keeps = λ ks. search (keeps_rules) depth 40 fits 5000 }

    pub Call-ascription : Call tokens inp g.fuel nothing (ascription g)
    unfolding ascription
    Call-ascription = record { keeps = λ ks. search (Call-type_, keeps_rules) depth 40 fits 5000 }

    pub Call-path_type : Call tokens inp g.fuel nothing (path_type g)
    unfolding path_type
    Call-path_type = record { keeps = λ ks. search (keeps_rules) depth 40 fits 5000 }

    pub Call-pattern_ : Call tokens inp g.fuel nothing (pattern_ g)
    unfolding pattern_
    Call-pattern_ = record { keeps = λ ks. search (keeps_rules) depth 40 fits 5000 }

    pub Call-expr : Call tokens inp g.fuel nothing (expr g)
    unfolding expr
    Call-expr = record { keeps = λ ks. search (keeps_rules) depth 40 fits 5000 }

    pub Call-expr_stmt : Call tokens inp g.fuel nothing (expr_stmt g)
    unfolding expr_stmt
    Call-expr_stmt = record { keeps = λ ks. search (keeps_rules) depth 40 fits 5000 }

    pub Call-expr_no_struct : Call tokens inp g.fuel nothing (expr_no_struct g)
    unfolding expr_no_struct
    Call-expr_no_struct = record { keeps = λ ks. search (keeps_rules) depth 40 fits 5000 }

    pub Call-opt_fn_ret_type : Call tokens inp g.fuel nothing (opt_fn_ret_type g)
    unfolding opt_fn_ret_type
    Call-opt_fn_ret_type = record {
      keeps = λ ks. search (Call-type_, keeps_rules) depth 40 fits 5000;
    }
