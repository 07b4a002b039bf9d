-- ===== src/Grammar/Keeps/WhereClauses.antt =====
-- What the where clauses of crates/ra_syntax/src/grammar/type_params.rs keep.
use rust_analyzer.Base.{List}
use rust_analyzer.Grammar.Entries.{Grammar}
use rust_analyzer.Grammar.Keeps.Auto.{keeps_rules}
use rust_analyzer.Grammar.Keeps.Entries.{Calls}
use rust_analyzer.Grammar.Keeps.Paths.{Spend-is_path_start}
use rust_analyzer.Grammar.Keeps.Rules.{Call, nothing}
use rust_analyzer.Grammar.Keeps.TypeParams.{Call-bounds, Call-for_binder, Call-lifetime_bounds}
use rust_analyzer.Grammar.WhereClauses.{opt_where_clause, where_predicate}
use rust_analyzer.Lexer.Tokenize.{Token}
use rust_analyzer.Parser.Input.{ParserInput}

module _ (tokens : List Token) (inp : ParserInput) where
  module _ (g : Grammar) (calls : Calls tokens inp g) where
    pub Call-where_predicate : Call tokens inp g.fuel nothing (where_predicate g)
    unfolding where_predicate
    Call-where_predicate = record {
      keeps = λ ks.
          search
            (Call-lifetime_bounds, Call-for_binder, Spend-is_path_start, Call-bounds, keeps_rules)
            depth 40 fits 5000;
    }

    pub Call-opt_where_clause : Call tokens inp g.fuel nothing (opt_where_clause g)
    unfolding opt_where_clause
    Call-opt_where_clause = record {
      keeps =
          λ ks. search (Spend-is_path_start, Call-where_predicate, keeps_rules) depth 40 fits 5000;
    }
