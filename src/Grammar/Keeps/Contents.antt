-- ===== src/Grammar/Keeps/Contents.antt =====
-- What lists of items (crates/ra_syntax/src/grammar/items.rs and items/traits.rs) and root keep.
use rust_analyzer.SyntaxKind
use rust_analyzer.Base.{Bool, List, ◌∷◌}
use rust_analyzer.Grammar.Contents.{
  contents_list, extern_item_list, impl_item_list, item_end, item_or_macro, members_list,
  mod_contents, mod_item_list, no_item_here, root, trait_item_list,
}
use rust_analyzer.Grammar.Entries.{Grammar}
use rust_analyzer.Grammar.Items.{ItemFlavor, MaybeItem}
use rust_analyzer.Grammar.Keeps.Attributes.{Call-inner_attributes}
use rust_analyzer.Grammar.Keeps.Auto.{keeps_rules}
use rust_analyzer.Grammar.Keeps.Entries.{Calls}
use rust_analyzer.Grammar.Keeps.Facts.{Fact, alone}
use rust_analyzer.Grammar.Keeps.Items.{Call-macro_call}
use rust_analyzer.Grammar.Keeps.MaybeItems.{Call-maybe_item}
use rust_analyzer.Grammar.Keeps.Names.{Call-error_block}
use rust_analyzer.Grammar.Keeps.Paths.{Spend-is_path_start}
use rust_analyzer.Grammar.Keeps.Rules.{Call, Keeps, Spend, nothing}
use rust_analyzer.Lexer.Tokenize.{Token}
use rust_analyzer.Parser.Api.{Marker}
use rust_analyzer.Parser.Input.{ParserInput}
use rust_analyzer.SyntaxKind.{SyntaxKind}

module _ (tokens : List Token) (inp : ParserInput) where
  module _ (g : Grammar) (calls : Calls tokens inp g) where
    pub Call-no_item_here :
        (stop_on_r_curly : Bool) → Call tokens inp g.fuel nothing (no_item_here g stop_on_r_curly)
    unfolding no_item_here
    Call-no_item_here stop_on_r_curly = record {
      keeps = λ ks. search (Call-error_block, keeps_rules) depth 40 fits 5000;
    }

    Keeps-item_end :
        {ks : List Fact} (stop_on_r_curly : Bool) (m : Marker) (item : MaybeItem)
        → Keeps tokens inp g.fuel (alone m.pos ∷ ks) ks nothing (item_end g stop_on_r_curly m item)
    unfolding item_end
    Keeps-item_end stop_on_r_curly m (MaybeItem.item kind) = search keeps_rules depth 40 fits 5000
    Keeps-item_end stop_on_r_curly m MaybeItem.no_item =
        search (Spend-is_path_start, Call-macro_call, Call-no_item_here, keeps_rules) depth 40 fits
          5000
    Keeps-item_end stop_on_r_curly m MaybeItem.modifiers = search keeps_rules depth 40 fits 5000

    pub Call-item_or_macro :
        (stop_on_r_curly : Bool) (flavor : ItemFlavor)
        → Call tokens inp g.fuel nothing (item_or_macro g stop_on_r_curly flavor)
    unfolding item_or_macro
    Call-item_or_macro stop_on_r_curly flavor = record {
      keeps = λ ks. search (Keeps-item_end, Call-maybe_item, keeps_rules) depth 40 fits 5000;
    }

    pub Call-mod_contents :
        (stop_on_r_curly : Bool) → Call tokens inp g.fuel nothing (mod_contents g stop_on_r_curly)
    unfolding mod_contents
    Call-mod_contents stop_on_r_curly = record {
      keeps =
          λ ks. search (Call-inner_attributes, Call-item_or_macro, keeps_rules) depth 40 fits 5000;
    }

    pub Spend-contents_list :
        (kind : SyntaxKind) → Spend tokens inp g.fuel nothing (contents_list g kind)
    unfolding contents_list
    Spend-contents_list kind = record {
      spends = λ ks. search (Call-mod_contents, keeps_rules) depth 40 fits 5000;
    }

    pub Spend-extern_item_list : Spend tokens inp g.fuel nothing (extern_item_list g)
    unfolding extern_item_list
    Spend-extern_item_list = Spend-contents_list SyntaxKind.extern_item_list

    pub Spend-mod_item_list : Spend tokens inp g.fuel nothing (mod_item_list g)
    unfolding mod_item_list
    Spend-mod_item_list = Spend-contents_list SyntaxKind.item_list

    pub Spend-members_list :
        (flavor : ItemFlavor) → Spend tokens inp g.fuel nothing (members_list g flavor)
    unfolding members_list
    Spend-members_list flavor = record {
      spends = λ ks. search (Call-error_block, Call-item_or_macro, keeps_rules) depth 40 fits 5000;
    }

    pub Spend-trait_item_list : Spend tokens inp g.fuel nothing (trait_item_list g)
    unfolding trait_item_list
    Spend-trait_item_list = Spend-members_list ItemFlavor.in_trait

    pub Spend-impl_item_list : Spend tokens inp g.fuel nothing (impl_item_list g)
    unfolding impl_item_list
    Spend-impl_item_list = Spend-members_list ItemFlavor.in_mod

    pub Call-root : Call tokens inp g.fuel nothing (root g)
    unfolding root
    Call-root = record { keeps = λ ks. search (Call-mod_contents, keeps_rules) depth 40 fits 5000 }
