-- ===== src/Grammar/Keeps/Exprs.antt =====
-- What postfix and path expressions (crates/ra_syntax/src/grammar/expressions.rs) keep.
use rust_analyzer.Base.{Bool, List, true, ℕ}
use rust_analyzer.Base.Loop.{again, stop}
use rust_analyzer.Grammar.Entries.{Grammar, Restrictions}
use rust_analyzer.Grammar.Exprs.{
  arg_list, call_expr, cast_expr, field_expr, index_expr, macro_call_after_excl, method_ahead,
  method_call_expr, named_field, named_field_list, open_range, path_expr, postfix_expr,
  postfix_next, postfix_round, try_expr,
}
use rust_analyzer.Grammar.Keeps.Auto.{keeps_rules}
use rust_analyzer.Grammar.Keeps.Calls.{Spend-current, Spend-nth}
use rust_analyzer.Grammar.Keeps.Entries.{Calls}
use rust_analyzer.Grammar.Keeps.Facts.{Fact, Has, forgets_none, forgets_one, has_below}
use rust_analyzer.Grammar.Keeps.Heads.{Call-expr, Call-type_no_bounds}
use rust_analyzer.Grammar.Keeps.Loops.{Has-of, flow, Spends-loop}
use rust_analyzer.Grammar.Keeps.Names.{Call-error_block, Spend-name_ref}
use rust_analyzer.Grammar.Keeps.Paths.{Call-expr_path, Spend-is_path_start}
use rust_analyzer.Grammar.Keeps.Rules.{
  Call, Call-Spend, CallAt, Keeps, SpendAt, completed, completed_like, has_one, Keeps-extend,
  Keeps-if, Keeps-pure, Keeps-then, nothing, Spends-then,
}
use rust_analyzer.Grammar.Keeps.TypeArgs.{Call-opt_type_arg_list}
use rust_analyzer.Grammar.Monad.{Gram}
use rust_analyzer.Lexer.Tokenize.{Token}
use rust_analyzer.Parser.Api.{CompletedMarker}
use rust_analyzer.Parser.Input.{ParserInput}

module _ (tokens : List Token) (inp : ParserInput) where
  module _ (g : Grammar) (calls : Calls tokens inp g) where
    pub Call-macro_call_after_excl : Call tokens inp g.fuel nothing (macro_call_after_excl g)
    unfolding macro_call_after_excl
    Call-macro_call_after_excl = record { keeps = λ ks. search (keeps_rules) depth 40 fits 5000 }

    pub Call-named_field : Call tokens inp g.fuel nothing (named_field g)
    unfolding named_field
    Call-named_field = record {
      keeps = λ ks. search (Spend-name_ref, Call-expr, keeps_rules) depth 40 fits 5000;
    }

    pub Call-named_field_list : Call tokens inp g.fuel nothing (named_field_list g)
    unfolding named_field_list
    Call-named_field_list = record {
      keeps = λ ks.
          search (Call-named_field, Call-expr, Call-error_block, keeps_rules) depth 40 fits 5000;
    }

    pub Call-path_expr : (r : Restrictions) → Call tokens inp g.fuel completed_like (path_expr g r)
    unfolding path_expr
    Call-path_expr r = record {
      keeps = λ ks.
          search
            (
              Spend-is_path_start, Call-expr_path, Call-named_field_list,
              Call-macro_call_after_excl, keeps_rules,
            )
            depth 40 fits 5000;
    }

    pub Call-arg_list : Call tokens inp g.fuel nothing (arg_list g)
    unfolding arg_list
    Call-arg_list = record { keeps = λ ks. search (Call-expr, keeps_rules) depth 40 fits 5000 }

  module _ {n : ℕ} where
    pub Call-method_ahead : Call tokens inp n nothing method_ahead
    unfolding method_ahead
    Call-method_ahead = record { keeps = λ ks. search (keeps_rules) depth 40 fits 5000 }

    pub CallAt-field_expr :
        (lhs : CompletedMarker) → CallAt tokens inp n lhs.pos completed (field_expr lhs)
    unfolding field_expr
    CallAt-field_expr lhs = record {
      keeps = λ ks has. search (Spend-name_ref, keeps_rules) depth 40 fits 5000;
    }

    pub CallAt-try_expr :
        (lhs : CompletedMarker) → CallAt tokens inp n lhs.pos completed (try_expr lhs)
    unfolding try_expr
    CallAt-try_expr lhs = record { keeps = λ ks has. search (keeps_rules) depth 40 fits 5000 }

    pub CallAt-open_range :
        (lhs : CompletedMarker) → CallAt tokens inp n lhs.pos completed (open_range lhs)
    unfolding open_range
    CallAt-open_range lhs = record { keeps = λ ks has. search (keeps_rules) depth 40 fits 5000 }

  module _ (g : Grammar) (calls : Calls tokens inp g) where
    pub CallAt-call_expr :
        (lhs : CompletedMarker) → CallAt tokens inp g.fuel lhs.pos completed (call_expr g lhs)
    unfolding call_expr
    CallAt-call_expr lhs = record {
      keeps = λ ks has. search (Call-arg_list, keeps_rules) depth 40 fits 5000;
    }

    pub CallAt-index_expr :
        (lhs : CompletedMarker) → CallAt tokens inp g.fuel lhs.pos completed (index_expr g lhs)
    unfolding index_expr
    CallAt-index_expr lhs = record {
      keeps = λ ks has. search (Call-expr, keeps_rules) depth 40 fits 5000;
    }

    pub CallAt-method_call_expr :
        (lhs : CompletedMarker)
        → CallAt tokens inp g.fuel lhs.pos completed (method_call_expr g lhs)
    unfolding method_call_expr
    CallAt-method_call_expr lhs = record {
      keeps = λ ks has.
          search
            (Call-method_ahead, Spend-name_ref, Call-opt_type_arg_list, Call-arg_list, keeps_rules)
            depth 40 fits 5000;
    }

    pub CallAt-cast_expr :
        (lhs : CompletedMarker) → CallAt tokens inp g.fuel lhs.pos completed (cast_expr g lhs)
    unfolding cast_expr
    CallAt-cast_expr lhs = record {
      keeps = λ ks has. search (Call-type_no_bounds, keeps_rules) depth 40 fits 5000;
    }

    Keeps-postfix_next :
        {ks : List Fact} (m : CompletedMarker → Gram CompletedMarker) (lhs : CompletedMarker)
        → ((l : CompletedMarker) → CallAt tokens inp g.fuel l.pos completed (m l))
        → Has lhs.pos ks
        → Keeps tokens inp g.fuel ks ks (flow (λ s. completed s.0) completed) (postfix_next (m lhs))
    unfolding postfix_next
    Keeps-postfix_next m lhs h has =
        Keeps-extend tokens inp m lhs h has λ a.
          Keeps-pure tokens inp (again (a, true)) (has_one has_below) (forgets_one forgets_none)

    SpendAt-postfix_round :
        (lhs : CompletedMarker) (allow_calls : Bool)
        → SpendAt tokens inp g.fuel lhs.pos
            (flow (λ s. completed s.0) completed)
            (postfix_round g (lhs, allow_calls))
    unfolding postfix_round
    SpendAt-postfix_round lhs allow_calls = record {
      spends = λ ks has.
          let stays =
            Keeps-pure tokens inp {R = flow (λ s. completed s.0) completed} (stop lhs) (has_one has)
              forgets_none in
          Spends-then tokens inp (Spend-current tokens inp) λ kind.
            Keeps-if tokens inp _ (Keeps-postfix_next (call_expr g) lhs CallAt-call_expr has) (
              Keeps-if tokens inp _ (Keeps-postfix_next (index_expr g) lhs CallAt-index_expr has) (
                Keeps-if tokens inp _
                  (Keeps-then tokens inp Call-method_ahead λ method.
                    Keeps-if tokens inp method
                      (Keeps-postfix_next (method_call_expr g) lhs CallAt-method_call_expr has)
                      (Keeps-postfix_next field_expr lhs CallAt-field_expr has))
                  (Keeps-if tokens inp _
                    (Keeps-then tokens inp (Call-Spend tokens inp (Spend-nth tokens inp 1)) λ next.
                      Keeps-if tokens inp _ stays
                        (Keeps-postfix_next open_range lhs CallAt-open_range has))
                    (Keeps-if tokens inp _ (Keeps-postfix_next try_expr lhs CallAt-try_expr has) (
                      Keeps-if tokens inp _
                        (Keeps-postfix_next (cast_expr g) lhs CallAt-cast_expr has) stays)))));
    }

    pub SpendAt-postfix_expr :
        (lhs : CompletedMarker) (allow_calls : Bool)
        → SpendAt tokens inp g.fuel lhs.pos completed (postfix_expr g lhs allow_calls)
    unfolding postfix_expr
    SpendAt-postfix_expr lhs allow_calls = record {
      spends = λ ks has.
          Spends-loop tokens inp g.fuel (λ s. completed s.0) completed (postfix_round g)
            (λ s ks. has_one has_below) (λ s ks. forgets_one forgets_none)
            (λ (l, b) ks all. (SpendAt-postfix_round l b).spends ks (Has-of tokens inp all))
            (lhs, allow_calls) ks (has_one has);
    }
