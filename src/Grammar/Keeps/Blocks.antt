-- ===== src/Grammar/Keeps/Blocks.antt =====
-- What the blocks of crates/ra_syntax/src/grammar/expressions.rs keep.
use rust_analyzer.Base.{List, ◌∷◌}
use rust_analyzer.Grammar.Blocks.{block, block_item, block_stmt, let_stmt}
use rust_analyzer.Grammar.Entries.{Grammar}
use rust_analyzer.Grammar.Items.{MaybeItem}
use rust_analyzer.Grammar.Keeps.Auto.{keeps_rules}
use rust_analyzer.Grammar.Keeps.Entries.{Calls}
use rust_analyzer.Grammar.Keeps.Facts.{Fact, alone}
use rust_analyzer.Grammar.Keeps.Heads.{Call-ascription, Call-expr, Call-expr_stmt, Call-pattern_}
use rust_analyzer.Grammar.Keeps.MaybeItems.{Call-maybe_item}
use rust_analyzer.Grammar.Keeps.Rules.{Call, Keeps, Spend, nothing}
use rust_analyzer.Lexer.Tokenize.{Token}
use rust_analyzer.Parser.Api.{Marker}
use rust_analyzer.Parser.Input.{ParserInput}

module _ (tokens : List Token) (inp : ParserInput) where
  module _ (g : Grammar) (calls : Calls tokens inp g) where
    pub Call-let_stmt : Call tokens inp g.fuel nothing (let_stmt g)
    unfolding let_stmt
    Call-let_stmt = record {
      keeps =
          λ ks. search (Call-pattern_, Call-ascription, Call-expr, keeps_rules) depth 40 fits 5000;
    }

    Keeps-block_item :
        {ks : List Fact} (m : Marker) (item : MaybeItem)
        → Keeps tokens inp g.fuel (alone m.pos ∷ ks) ks nothing (block_item g m item)
    unfolding block_item
    Keeps-block_item m (MaybeItem.item kind) = search keeps_rules depth 40 fits 5000
    Keeps-block_item m MaybeItem.modifiers = search keeps_rules depth 40 fits 5000
    Keeps-block_item m MaybeItem.no_item = search (Call-expr_stmt, keeps_rules) depth 40 fits 5000

    pub Call-block_stmt : Call tokens inp g.fuel nothing (block_stmt g)
    unfolding block_stmt
    Call-block_stmt = record {
      keeps = λ ks. search (Keeps-block_item, Call-maybe_item, keeps_rules) depth 40 fits 5000;
    }

    pub Spend-block : Spend tokens inp g.fuel nothing (block g)
    unfolding block
    Spend-block = record {
      spends = λ ks. search (Call-let_stmt, Call-block_stmt, keeps_rules) depth 40 fits 5000;
    }
