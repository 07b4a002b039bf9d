-- ===== src/Grammar/Keeps/UseItems.antt =====
-- What crates/ra_syntax/src/grammar/items/use_item.rs keeps.
use rust_analyzer.Base.{List}
use rust_analyzer.Grammar.Entries.{Grammar}
use rust_analyzer.Grammar.Keeps.Auto.{keeps_rules}
use rust_analyzer.Grammar.Keeps.Entries.{Calls}
use rust_analyzer.Grammar.Keeps.Names.{Spend-opt_alias}
use rust_analyzer.Grammar.Keeps.Paths.{Call-use_path, Spend-is_path_start}
use rust_analyzer.Grammar.Keeps.Rules.{Call, Spend, nothing}
use rust_analyzer.Grammar.UseItems.{use_item, use_tree, use_tree_end, use_tree_list}
use rust_analyzer.Lexer.Tokenize.{Token}
use rust_analyzer.Parser.Input.{ParserInput}

module _ (tokens : List Token) (inp : ParserInput) where
  module _ (g : Grammar) (calls : Calls tokens inp g) where
    pub Call-use_tree_end : Call tokens inp g.fuel nothing (use_tree_end g)
    unfolding use_tree_end
    Call-use_tree_end = record {
      keeps = λ ks. search (Spend-opt_alias, keeps_rules) depth 40 fits 5000;
    }

    pub Call-use_tree : Call tokens inp g.fuel nothing (use_tree g)
    unfolding use_tree
    Call-use_tree = record {
      keeps = λ ks.
          search (Spend-is_path_start, Call-use_path, Call-use_tree_end, keeps_rules) depth 40 fits
            5000;
    }

    pub Call-use_item : Call tokens inp g.fuel nothing (use_item g)
    unfolding use_item
    Call-use_item = record { keeps = λ ks. search (Call-use_tree, keeps_rules) depth 40 fits 5000 }

    pub Spend-use_tree_list : Spend tokens inp g.fuel nothing (use_tree_list g)
    unfolding use_tree_list
    Spend-use_tree_list = record {
      spends = λ ks. search (Call-use_tree, keeps_rules) depth 40 fits 5000;
    }
