-- ===== src/Grammar/Keeps/Knot.antt =====
-- What the whole grammar (crates/ra_syntax/src/grammar/) keeps: with as much fuel as lookaheads are
-- left, no call runs out of it.
use rust_analyzer.Base.{ℕ, zero, suc, ◌≡◌, refl, subst, List, arith}
use rust_analyzer.Lexer.Tokenize.{Token}
use rust_analyzer.Parser.Input.{ParserInput}
use rust_analyzer.Grammar.Monad.{Gram, spent}
use rust_analyzer.Grammar.Entries.{Grammar}
use rust_analyzer.Grammar.Knot.{grammar, if_stmt}
use rust_analyzer.Grammar.Keeps.Facts.{forgets_none, forgets_one}
use rust_analyzer.Grammar.Keeps.Rules.{
  Call, Spend, Call_suc, nothing, Spends-completed, Keeps-pure, has_none,
}
use rust_analyzer.Grammar.Keeps.Entries.{Calls}
use rust_analyzer.Grammar.Keeps.Names.{Spend-error_block_go}
use rust_analyzer.Grammar.Keeps.Attributes.{Spend-token_tree}
use rust_analyzer.Grammar.Keeps.Types.{
  Spend-type_with_bounds_cond, Spend-path_type_, Spend-for_type,
}
use rust_analyzer.Grammar.Keeps.Patterns.{Spend-pattern_r}
use rust_analyzer.Grammar.Keeps.Expressions.{Spend-expr_bp}
use rust_analyzer.Grammar.Keeps.Blocks.{Spend-block}
use rust_analyzer.Grammar.Keeps.Contents.{
  Spend-mod_item_list, Spend-extern_item_list, Spend-trait_item_list, Spend-impl_item_list,
}
use rust_analyzer.Grammar.Keeps.UseItems.{Spend-use_tree_list}
use rust_analyzer.Grammar.Keeps.Atoms.{Spend-if_expr}

module _ (tokens : List Token) (inp : ParserInput) where
  Spend-if_stmt : (g : Grammar) → Calls tokens inp g → Spend tokens inp g.fuel nothing (if_stmt g)
  unfolding if_stmt
  Spend-if_stmt g calls = record {
    spends = λ ks.
        Spends-completed tokens inp (Spend-if_expr tokens inp g calls)
          λ a. Keeps-pure tokens inp tt has_none (forgets_one forgets_none);
  }

  pub fuel_of_grammar : (n : ℕ) → (grammar n).fuel ≡ n
  unfolding grammar
  fuel_of_grammar zero = refl
  fuel_of_grammar (suc n) = refl

  Call-spent : {A : Type 0} → Call tokens inp {A = A} 0 nothing (λ i p. spent)
  Call-spent = record {
    keeps = λ ks. record { ends = λ p s held fuel. absurd (omega (arith, s.bounded, fuel)) };
  }

  Call-next :
      {A : Type 0} (n : ℕ) {m : Gram A}
      → Spend tokens inp (grammar n).fuel nothing m
      → Call tokens inp (suc n) nothing m
  Call-next n {m} h =
      Call_suc tokens inp (subst (λ k. Spend tokens inp k nothing m) (fuel_of_grammar n) h)

  pub Calls-grammar : (n : ℕ) → Calls tokens inp (grammar n)
  unfolding grammar
  Calls-grammar zero = record {
    error_block = λ message. Call-spent;
    token_tree = Call-spent;
    type_with_bounds_cond = λ allow_bounds. Call-spent;
    path_type_ = λ allow_bounds. Call-spent;
    for_type = Call-spent;
    pattern_r = λ recovery_set. Call-spent;
    expr_bp = λ r bp. Call-spent;
    if_expr = Call-spent;
    block = Call-spent;
    mod_item_list = Call-spent;
    extern_item_list = Call-spent;
    trait_item_list = Call-spent;
    impl_item_list = Call-spent;
    use_tree_list = Call-spent;
  }
  Calls-grammar (suc n) =
      let g = grammar n in
      let calls = Calls-grammar n in
      record {
        error_block = λ message. Call-next n (Spend-error_block_go tokens inp g calls message);
        token_tree = Call-next n (Spend-token_tree tokens inp g calls);
        type_with_bounds_cond = λ allow_bounds.
            Call-next n (Spend-type_with_bounds_cond tokens inp g calls allow_bounds);
        path_type_ = λ allow_bounds. Call-next n (Spend-path_type_ tokens inp g calls allow_bounds);
        for_type = Call-next n (Spend-for_type tokens inp g calls);
        pattern_r = λ recovery_set. Call-next n (Spend-pattern_r tokens inp g calls recovery_set);
        expr_bp = λ r bp. Call-next n (Spend-expr_bp tokens inp g calls r bp);
        if_expr = Call-next n (Spend-if_stmt g calls);
        block = Call-next n (Spend-block tokens inp g calls);
        mod_item_list = Call-next n (Spend-mod_item_list tokens inp g calls);
        extern_item_list = Call-next n (Spend-extern_item_list tokens inp g calls);
        trait_item_list = Call-next n (Spend-trait_item_list tokens inp g calls);
        impl_item_list = Call-next n (Spend-impl_item_list tokens inp g calls);
        use_tree_list = Call-next n (Spend-use_tree_list tokens inp g calls);
      }
