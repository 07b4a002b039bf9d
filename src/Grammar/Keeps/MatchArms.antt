-- ===== src/Grammar/Keeps/MatchArms.antt =====
-- What the match expressions of crates/ra_syntax/src/grammar/expressions/atom.rs keep.
use rust_analyzer.Base.{List}
use rust_analyzer.Grammar.Entries.{Grammar}
use rust_analyzer.Grammar.Keeps.Auto.{keeps_rules}
use rust_analyzer.Grammar.Keeps.Entries.{Calls}
use rust_analyzer.Grammar.Keeps.Heads.{
  Call-expr, Call-expr_no_struct, Call-expr_stmt, Call-pattern_,
}
use rust_analyzer.Grammar.Keeps.Names.{Call-error_block}
use rust_analyzer.Grammar.Keeps.Rules.{Call, completed, nothing}
use rust_analyzer.Grammar.MatchArms.{match_arm, match_arm_list, match_expr}
use rust_analyzer.Lexer.Tokenize.{Token}
use rust_analyzer.Parser.Input.{ParserInput}

module _ (tokens : List Token) (inp : ParserInput) where
  module _ (g : Grammar) (calls : Calls tokens inp g) where
    pub Call-match_arm : Call tokens inp g.fuel nothing (match_arm g)
    unfolding match_arm
    Call-match_arm = record {
      keeps =
          λ ks. search (Call-pattern_, Call-expr, Call-expr_stmt, keeps_rules) depth 40 fits 5000;
    }

    pub Call-match_arm_list : Call tokens inp g.fuel nothing (match_arm_list g)
    unfolding match_arm_list
    Call-match_arm_list = record {
      keeps = λ ks. search (Call-error_block, Call-match_arm, keeps_rules) depth 40 fits 5000;
    }

    pub Call-match_expr : Call tokens inp g.fuel completed (match_expr g)
    unfolding match_expr
    Call-match_expr = record {
      keeps =
          λ ks. search (Call-expr_no_struct, Call-match_arm_list, keeps_rules) depth 40 fits 5000;
    }
