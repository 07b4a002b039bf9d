-- ===== src/Grammar/Keeps/Names.antt =====
-- What names and recovery keep: the last functions of crates/ra_syntax/src/grammar.rs.
use Prim.Native.String.{String}
use rust_analyzer.Base.{ℕ, List, Option, none, some}
use rust_analyzer.Lexer.Tokenize.{Token}
use rust_analyzer.TokenSet
use rust_analyzer.TokenSet.{TokenSet}
use rust_analyzer.Parser.Input.{ParserInput}
use rust_analyzer.Grammar.Entries.{Grammar}
use rust_analyzer.Grammar.Names.{
  name_r, name, name_ref, opt_alias, abi, error_opt, error_block_go, error_block,
}
use rust_analyzer.Grammar.Keeps.Rules.{Call, Spend, nothing}
use rust_analyzer.Grammar.Keeps.Auto.{keeps_rules}
use rust_analyzer.Grammar.Keeps.Entries.{Calls}

module _ (tokens : List Token) (inp : ParserInput) where
  module _ {n : ℕ} where
    pub Spend-name_r : (recovery : TokenSet) → Spend tokens inp n nothing (name_r recovery)
    unfolding name_r
    Spend-name_r recovery = record { spends = λ ks. search keeps_rules depth 30 fits 2000 }

    pub Spend-name : Spend tokens inp n nothing name
    unfolding name
    Spend-name = Spend-name_r TokenSet.empty

    pub Spend-name_ref : Spend tokens inp n nothing name_ref
    unfolding name_ref
    Spend-name_ref = record { spends = λ ks. search keeps_rules depth 30 fits 2000 }

    pub Spend-opt_alias : Spend tokens inp n nothing opt_alias
    unfolding opt_alias
    Spend-opt_alias = record { spends = λ ks. search (Spend-name, keeps_rules) depth 30 fits 2000 }

    pub Spend-abi : Spend tokens inp n nothing abi
    unfolding abi
    Spend-abi = record { spends = λ ks. search keeps_rules depth 30 fits 2000 }

    Call-error_opt : (message : Option String) → Call tokens inp n nothing (error_opt message)
    unfolding error_opt
    Call-error_opt none = search keeps_rules
    Call-error_opt (some message) = search keeps_rules

  module _ (g : Grammar) (calls : Calls tokens inp g) where
    pub Spend-error_block_go :
        (message : Option String) → Spend tokens inp g.fuel nothing (error_block_go g message)
    unfolding error_block_go
    Spend-error_block_go message = record {
      spends = λ ks. search (calls.error_block, Call-error_opt, keeps_rules) depth 40 fits 5000;
    }

    pub Call-error_block :
        (message : String) → Call tokens inp g.fuel nothing (error_block g message)
    unfolding error_block
    Call-error_block message = calls.error_block (some message)
