-- ===== src/Grammar/Keeps/MaybeItems.antt =====
-- What the items of crates/ra_syntax/src/grammar/items.rs keep.
use rust_analyzer.Base.{List, Option, none, some, ℕ}
use rust_analyzer.Grammar.Entries.{Grammar}
use rust_analyzer.Grammar.Items.{ItemFlavor}
use rust_analyzer.Grammar.Keeps.Attributes.{Call-outer_attributes}
use rust_analyzer.Grammar.Keeps.Auto.{keeps_rules}
use rust_analyzer.Grammar.Keeps.Entries.{Calls}
use rust_analyzer.Grammar.Keeps.Facts.{Fact, Forgets}
use rust_analyzer.Grammar.Keeps.Items.{
  Call-const_def, Call-extern_crate_item, Call-fn_def, Call-mod_item, Call-static_def,
  Call-type_def,
}
use rust_analyzer.Grammar.Keeps.Names.{Spend-abi}
use rust_analyzer.Grammar.Keeps.Nominal.{Call-enum_def, Call-struct_def}
use rust_analyzer.Grammar.Keeps.Paths.{Spend-opt_visibility}
use rust_analyzer.Grammar.Keeps.Rules.{
  Call, Call-pure, Keeps, has_none, Keeps-pure, Keeps-then, nothing,
}
use rust_analyzer.Grammar.Keeps.Traits.{Call-impl_block, Call-trait_def}
use rust_analyzer.Grammar.Keeps.UseItems.{Call-use_item}
use rust_analyzer.Grammar.MaybeItems.{
  const_or_extern, contextual_before, gives, items_without_modifiers, maybe_item, modified_item,
  modifiers, struct_item,
}
use rust_analyzer.Grammar.Monad.{Gram, ◌>>=◌}
use rust_analyzer.Grammar.Names.{abi}
use rust_analyzer.Lexer.Tokenize.{Token}
use rust_analyzer.Parser.Input.{ParserInput}
use rust_analyzer.SyntaxKind.{SyntaxKind}

module _ (tokens : List Token) (inp : ParserInput) where
  module _ {n : ℕ} where
    Keeps-gives :
        {ks ls : List Fact} {m : Gram (Unit {0})} (kind : SyntaxKind)
        → Call tokens inp n nothing m
        → Forgets ks ls
        → Keeps tokens inp n ks ls nothing (gives m kind)
    unfolding gives
    Keeps-gives kind h d = Keeps-then tokens inp h λ a. Keeps-pure tokens inp (some kind) has_none d

  module _ (g : Grammar) (calls : Calls tokens inp g) where
    pub Call-struct_item : Call tokens inp g.fuel nothing (struct_item g)
    unfolding struct_item
    Call-struct_item = record {
      keeps = λ ks. search (Call-struct_def, keeps_rules) depth 40 fits 5000;
    }

    Call-extern_block : Call tokens inp g.fuel nothing (abi >>= λ _. g.extern_item_list)
    Call-extern_block = record { keeps = λ ks. search (Spend-abi, keeps_rules) }

    pub Call-const_or_extern :
        (kind la : SyntaxKind) → Call tokens inp g.fuel nothing (const_or_extern g kind la)
    unfolding const_or_extern
    Call-const_or_extern kind la = record {
      keeps = λ ks.
          search
            (
              Keeps-gives, Call-enum_def, Call-use_item, Call-const_def, Call-static_def,
              Call-extern_block, keeps_rules,
            )
            depth 40 fits 5000;
    }

    pub Call-items_without_modifiers : Call tokens inp g.fuel nothing (items_without_modifiers g)
    unfolding items_without_modifiers
    Call-items_without_modifiers = record {
      keeps = λ ks.
          search
            (
              Keeps-gives, Call-extern_crate_item, Call-type_def, Call-mod_item, Call-struct_item,
              Call-struct_def, Call-const_or_extern, keeps_rules,
            )
            depth 40 fits 5000;
    }

  module _ {n : ℕ} where
    pub Call-contextual_before :
        (text : List ℕ) (next : SyntaxKind)
        → Call tokens inp n nothing (contextual_before text next)
    unfolding contextual_before
    Call-contextual_before text next = record {
      keeps = λ ks. search (keeps_rules) depth 40 fits 5000;
    }

    pub Call-modifiers : Call tokens inp n nothing modifiers
    unfolding modifiers
    Call-modifiers = record {
      keeps = λ ks. search (Call-contextual_before, Spend-abi, keeps_rules) depth 40 fits 5000;
    }

  module _ (g : Grammar) (calls : Calls tokens inp g) where
    Call-modified_item :
        (flavor : ItemFlavor) (o : Option SyntaxKind)
        → Call tokens inp g.fuel nothing (modified_item g flavor o)
    unfolding modified_item
    Call-modified_item flavor (some kind) = Call-pure tokens inp _
    Call-modified_item flavor none = record {
      keeps = λ ks.
          search (Call-modifiers, Call-fn_def, Call-trait_def, Call-impl_block, keeps_rules) depth
            40 fits 5000;
    }

    pub Call-maybe_item :
        (flavor : ItemFlavor) → Call tokens inp g.fuel nothing (maybe_item g flavor)
    unfolding maybe_item
    Call-maybe_item flavor = record {
      keeps = λ ks.
          search
            (
              Call-outer_attributes, Spend-opt_visibility, Call-items_without_modifiers,
              Call-modified_item, keeps_rules,
            )
            depth 40 fits 5000;
    }
