-- ===== src/Grammar/Keeps/Patterns.antt =====
-- What crates/ra_syntax/src/grammar/patterns.rs keeps.
use rust_analyzer.Base.{Bool, List, none, some, ℕ}
use rust_analyzer.Grammar.Entries.{Grammar}
use rust_analyzer.Grammar.Keeps.Auto.{keeps_rules}
use rust_analyzer.Grammar.Keeps.Entries.{Calls}
use rust_analyzer.Grammar.Keeps.Facts.{Fact, Forgets, Has}
use rust_analyzer.Grammar.Keeps.Heads.{Call-pattern_}
use rust_analyzer.Grammar.Keeps.Names.{Call-error_block, Spend-name}
use rust_analyzer.Grammar.Keeps.Paths.{Call-expr_path, Spend-is_path_start}
use rust_analyzer.Grammar.Keeps.Rules.{
  Call, Call-Spend, Call-pure, Keeps, Spend, completed, has_one, Keeps-last_at, Keeps-pure,
  maybe_completed, nothing,
}
use rust_analyzer.Grammar.Patterns.{
  atom_pat, bind_pat, field_pat_list, literal, literal_or_pat, pat_list, path_pat, pattern_r,
  placeholder_pat, range_pat_of, ref_pat, slice_pat, tuple_pat, tuple_pat_fields,
}
use rust_analyzer.Lexer.Tokenize.{Token}
use rust_analyzer.Parser.Api.{CompletedMarker}
use rust_analyzer.Parser.Input.{ParserInput}
use rust_analyzer.SyntaxKind.{SyntaxKind}
use rust_analyzer.TokenSet.{TokenSet}

module _ (tokens : List Token) (inp : ParserInput) where
  module _ {n : ℕ} where
    pub Spend-literal : Spend tokens inp n maybe_completed literal
    unfolding literal
    Spend-literal = record { spends = λ ks. search (keeps_rules) depth 40 fits 5000 }

    pub Call-placeholder_pat : Call tokens inp n completed placeholder_pat
    unfolding placeholder_pat
    Call-placeholder_pat = record { keeps = λ ks. search (keeps_rules) depth 40 fits 5000 }

  module _ (g : Grammar) (calls : Calls tokens inp g) where
    pub Call-bind_pat : (with_at : Bool) → Call tokens inp g.fuel completed (bind_pat g with_at)
    unfolding bind_pat
    Call-bind_pat with_at = record {
      keeps = λ ks. search (Spend-name, Call-pattern_, keeps_rules) depth 40 fits 5000;
    }

    pub Call-pat_list : (ket : SyntaxKind) → Call tokens inp g.fuel nothing (pat_list g ket)
    unfolding pat_list
    Call-pat_list ket = record {
      keeps = λ ks. search (Call-pattern_, keeps_rules) depth 40 fits 5000;
    }

    pub Call-tuple_pat_fields : Call tokens inp g.fuel nothing (tuple_pat_fields g)
    unfolding tuple_pat_fields
    Call-tuple_pat_fields = record {
      keeps = λ ks. search (Call-pat_list, keeps_rules) depth 40 fits 5000;
    }

    pub Call-field_pat_list : Call tokens inp g.fuel nothing (field_pat_list g)
    unfolding field_pat_list
    Call-field_pat_list = record {
      keeps = λ ks.
          search (Call-pattern_, Call-error_block, Call-bind_pat, keeps_rules) depth 40 fits 5000;
    }

    pub Call-path_pat : Call tokens inp g.fuel completed (path_pat g)
    unfolding path_pat
    Call-path_pat = record {
      keeps = λ ks.
          search
            (
              Spend-is_path_start, Call-expr_path, Call-tuple_pat_fields, Call-field_pat_list,
              keeps_rules,
            )
            depth 40 fits 5000;
    }

    pub Call-ref_pat : Call tokens inp g.fuel completed (ref_pat g)
    unfolding ref_pat
    Call-ref_pat = record { keeps = λ ks. search (Call-pattern_, keeps_rules) depth 40 fits 5000 }

    pub Call-tuple_pat : Call tokens inp g.fuel completed (tuple_pat g)
    unfolding tuple_pat
    Call-tuple_pat = record {
      keeps = λ ks. search (Call-tuple_pat_fields, keeps_rules) depth 40 fits 5000;
    }

    pub Call-slice_pat : Call tokens inp g.fuel completed (slice_pat g)
    unfolding slice_pat
    Call-slice_pat = record { keeps = λ ks. search (Call-pat_list, keeps_rules) depth 40 fits 5000 }

    Call-literal_or_pat :
        (recovery_set : TokenSet) (la0 : SyntaxKind)
        → Call tokens inp g.fuel maybe_completed (literal_or_pat g recovery_set la0 none)
    unfolding literal_or_pat
    Call-literal_or_pat recovery_set la0 = record {
      keeps = λ ks.
          search (Call-placeholder_pat, Call-ref_pat, Call-tuple_pat, Call-slice_pat, keeps_rules)
            depth 40 fits 5000;
    }

    Keeps-literal :
        {ks ls : List Fact} (recovery_set : TokenSet) (la0 : SyntaxKind) (m : CompletedMarker)
        → Has m.pos ks
        → Forgets ks ls
        → Keeps tokens inp g.fuel ks ls maybe_completed (literal_or_pat g recovery_set la0 (some m))
    unfolding literal_or_pat
    Keeps-literal recovery_set la0 m has d = Keeps-pure tokens inp (some m) (has_one has) d

    pub Spend-atom_pat :
        (recovery_set : TokenSet)
        → Spend tokens inp g.fuel maybe_completed (atom_pat g recovery_set)
    unfolding atom_pat
    Spend-atom_pat recovery_set = record {
      spends = λ ks.
          search
            (
              Keeps-literal, Call-literal_or_pat, Spend-literal, Call-bind_pat, Spend-is_path_start,
              Call-path_pat, keeps_rules,
            )
            depth 40 fits 5000;
    }

    Keeps-range_pat :
        {ks ls : List Fact} (recovery_set : TokenSet) (lhs : CompletedMarker)
        → Has lhs.pos ks
        → Forgets ks ls
        → Keeps tokens inp g.fuel ks ls nothing (range_pat_of g recovery_set (some lhs))
    unfolding range_pat_of
    Keeps-range_pat recovery_set lhs has d =
        Keeps-last_at tokens inp lhs.pos
          (record {
            keeps = λ ks has.
                search (Call-Spend tokens inp, Spend-atom_pat, keeps_rules) depth 40 fits 5000;
          })
          has d

    Call-no_range :
        (recovery_set : TokenSet)
        → Call tokens inp g.fuel nothing (range_pat_of g recovery_set none)
    unfolding range_pat_of
    Call-no_range recovery_set = Call-pure tokens inp tt

    pub Spend-pattern_r :
        (recovery_set : TokenSet) → Spend tokens inp g.fuel nothing (pattern_r g recovery_set)
    unfolding pattern_r
    Spend-pattern_r recovery_set = record {
      spends = λ ks.
          search (Spend-atom_pat, Keeps-range_pat, Call-no_range, keeps_rules) depth 40 fits 5000;
    }
