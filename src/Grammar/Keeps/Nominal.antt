-- ===== src/Grammar/Keeps/Nominal.antt =====
-- What crates/ra_syntax/src/grammar/items/nominal.rs keeps.
use rust_analyzer.Base.{List}
use rust_analyzer.Grammar.Entries.{Grammar}
use rust_analyzer.Grammar.Keeps.Attributes.{Call-outer_attributes}
use rust_analyzer.Grammar.Keeps.Auto.{keeps_rules}
use rust_analyzer.Grammar.Keeps.Entries.{Calls}
use rust_analyzer.Grammar.Keeps.Heads.{Call-expr, Call-type_}
use rust_analyzer.Grammar.Keeps.Names.{Call-error_block, Spend-name, Spend-name_r}
use rust_analyzer.Grammar.Keeps.Paths.{Spend-opt_visibility}
use rust_analyzer.Grammar.Keeps.Rules.{Call, nothing}
use rust_analyzer.Grammar.Keeps.TypeParams.{Call-opt_type_param_list}
use rust_analyzer.Grammar.Keeps.WhereClauses.{Call-opt_where_clause}
use rust_analyzer.Grammar.Nominal.{
  enum_def, enum_variant, enum_variant_list, named_field_def, named_field_def_list, pos_field,
  pos_field_list, struct_def, struct_fields,
}
use rust_analyzer.Lexer.Tokenize.{Token}
use rust_analyzer.Parser.Input.{ParserInput}
use rust_analyzer.SyntaxKind.{SyntaxKind}

module _ (tokens : List Token) (inp : ParserInput) where
  module _ (g : Grammar) (calls : Calls tokens inp g) where
    pub Call-named_field_def : Call tokens inp g.fuel nothing (named_field_def g)
    unfolding named_field_def
    Call-named_field_def = record {
      keeps = λ ks.
          search (Call-outer_attributes, Spend-opt_visibility, Spend-name, Call-type_, keeps_rules)
            depth 40 fits 5000;
    }

    pub Call-named_field_def_list : Call tokens inp g.fuel nothing (named_field_def_list g)
    unfolding named_field_def_list
    Call-named_field_def_list = record {
      keeps = λ ks. search (Call-error_block, Call-named_field_def, keeps_rules) depth 40 fits 5000;
    }

    pub Call-pos_field : Call tokens inp g.fuel nothing (pos_field g)
    unfolding pos_field
    Call-pos_field = record {
      keeps = λ ks. search (Spend-opt_visibility, Call-type_, keeps_rules) depth 40 fits 5000;
    }

    pub Call-pos_field_list : Call tokens inp g.fuel nothing (pos_field_list g)
    unfolding pos_field_list
    Call-pos_field_list = record {
      keeps = λ ks. search (Call-pos_field, keeps_rules) depth 40 fits 5000;
    }

    pub Call-struct_fields :
        (kind next : SyntaxKind) → Call tokens inp g.fuel nothing (struct_fields g kind next)
    unfolding struct_fields
    Call-struct_fields kind next = record {
      keeps = λ ks.
          search
            (Call-opt_where_clause, Call-named_field_def_list, Call-pos_field_list, keeps_rules)
            depth 40 fits 5000;
    }

    pub Call-struct_def : (kind : SyntaxKind) → Call tokens inp g.fuel nothing (struct_def g kind)
    unfolding struct_def
    Call-struct_def kind = record {
      keeps = λ ks.
          search (Spend-name_r, Call-opt_type_param_list, Call-struct_fields, keeps_rules) depth 40
            fits 5000;
    }

    pub Call-enum_variant : Call tokens inp g.fuel nothing (enum_variant g)
    unfolding enum_variant
    Call-enum_variant = record {
      keeps = λ ks.
          search
            (
              Call-outer_attributes, Spend-name, Call-named_field_def_list, Call-pos_field_list,
              Call-expr, keeps_rules,
            )
            depth 40 fits 5000;
    }

    pub Call-enum_variant_list : Call tokens inp g.fuel nothing (enum_variant_list g)
    unfolding enum_variant_list
    Call-enum_variant_list = record {
      keeps = λ ks. search (Call-error_block, Call-enum_variant, keeps_rules) depth 40 fits 5000;
    }

    pub Call-enum_def : Call tokens inp g.fuel nothing (enum_def g)
    unfolding enum_def
    Call-enum_def = record {
      keeps = λ ks.
          search
            (
              Spend-name_r, Call-opt_type_param_list, Call-opt_where_clause, Call-enum_variant_list,
              keeps_rules,
            )
            depth 40 fits 5000;
    }
