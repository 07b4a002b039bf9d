-- ===== src/Grammar/Keeps/Attributes.antt =====
-- What crates/ra_syntax/src/grammar/attributes.rs and token_tree of grammar/items.rs keep.
use rust_analyzer.Base.{Bool, List, ℕ}
use rust_analyzer.Grammar.Attributes.{
  attribute, closing_paren_kind, inner_attributes, outer_attributes, token_tree, token_tree_round,
}
use rust_analyzer.Grammar.Entries.{Grammar}
use rust_analyzer.Grammar.Keeps.Auto.{keeps_rules}
use rust_analyzer.Grammar.Keeps.Entries.{Calls}
use rust_analyzer.Grammar.Keeps.Loops.{flow}
use rust_analyzer.Grammar.Keeps.Rules.{Call, Spend, nothing}
use rust_analyzer.Lexer.Tokenize.{Token}
use rust_analyzer.Parser.Input.{ParserInput}
use rust_analyzer.SyntaxKind.{SyntaxKind}

module _ (tokens : List Token) (inp : ParserInput) where
  module _ {n : ℕ} where
    pub Call-closing_paren_kind :
        (kind : SyntaxKind) → Call tokens inp n nothing (closing_paren_kind kind)
    unfolding closing_paren_kind
    Call-closing_paren_kind kind = record { keeps = λ ks. search (keeps_rules) depth 40 fits 5000 }

  module _ (g : Grammar) (calls : Calls tokens inp g) where
    pub Spend-token_tree_round :
        (closing : SyntaxKind) (s : Unit {0})
        → Spend tokens inp g.fuel (flow nothing nothing) (token_tree_round g closing s)
    unfolding token_tree_round
    Spend-token_tree_round closing s = record {
      spends = λ ks. search (keeps_rules) depth 40 fits 5000;
    }

    pub Spend-token_tree : Spend tokens inp g.fuel nothing (token_tree g)
    unfolding token_tree
    Spend-token_tree = record {
      spends = λ ks.
          search (Spend-token_tree_round, Call-closing_paren_kind, keeps_rules) depth 40 fits 5000;
    }

    pub Call-attribute : (inner : Bool) → Call tokens inp g.fuel nothing (attribute g inner)
    unfolding attribute
    Call-attribute inner = record { keeps = λ ks. search (keeps_rules) depth 40 fits 5000 }

    pub Call-inner_attributes : Call tokens inp g.fuel nothing (inner_attributes g)
    unfolding inner_attributes
    Call-inner_attributes = record {
      keeps = λ ks. search (Call-attribute, keeps_rules) depth 40 fits 5000;
    }

    pub Call-outer_attributes : Call tokens inp g.fuel nothing (outer_attributes g)
    unfolding outer_attributes
    Call-outer_attributes = record {
      keeps = λ ks. search (Call-attribute, keeps_rules) depth 40 fits 5000;
    }
