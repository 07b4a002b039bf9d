-- ===== src/Grammar/Keeps/Atoms.antt =====
-- What crates/ra_syntax/src/grammar/expressions/atom.rs keeps.
use rust_analyzer.Base.{Bool, List, Option, none, some, ℕ}
use rust_analyzer.Grammar.Atoms.{
  array_expr, block_expr, break_expr, cond, continue_expr, for_expr, if_expr, label, lambda_expr,
  loop_expr, or_start, return_expr, tuple_expr, tuple_round, while_expr,
}
use rust_analyzer.Grammar.Entries.{Grammar, Restrictions}
use rust_analyzer.Grammar.Keeps.Auto.{keeps_rules}
use rust_analyzer.Grammar.Keeps.Calls.{Call-start}
use rust_analyzer.Grammar.Keeps.Entries.{Calls}
use rust_analyzer.Grammar.Keeps.Heads.{
  Call-expr, Call-expr_no_struct, Call-opt_fn_ret_type, Call-pattern_,
}
use rust_analyzer.Grammar.Keeps.Loops.{flow}
use rust_analyzer.Grammar.Keeps.Params.{Call-param_list_opt_types}
use rust_analyzer.Grammar.Keeps.Rules.{Call, Call-pure, Call-unmarked, Spend, completed, nothing}
use rust_analyzer.Lexer.Tokenize.{Token}
use rust_analyzer.Parser.Api.{Marker}
use rust_analyzer.Parser.Input.{ParserInput}

module _ (tokens : List Token) (inp : ParserInput) where
  module _ (g : Grammar) (calls : Calls tokens inp g) where
    pub Spend-tuple_round :
        (s : Bool × Bool) → Spend tokens inp g.fuel (flow nothing nothing) (tuple_round g s)
    unfolding tuple_round
    Spend-tuple_round s = record {
      spends = λ ks. search (Call-expr, keeps_rules) depth 40 fits 5000;
    }

    pub Call-tuple_expr : Call tokens inp g.fuel completed (tuple_expr g)
    unfolding tuple_expr
    Call-tuple_expr = record {
      keeps = λ ks. search (Spend-tuple_round, keeps_rules) depth 40 fits 5000;
    }

    pub Call-array_expr : Call tokens inp g.fuel completed (array_expr g)
    unfolding array_expr
    Call-array_expr = record { keeps = λ ks. search (Call-expr, keeps_rules) depth 40 fits 5000 }

    pub Call-lambda_expr : Call tokens inp g.fuel completed (lambda_expr g)
    unfolding lambda_expr
    Call-lambda_expr = record {
      keeps = λ ks.
          search (Call-param_list_opt_types, Call-opt_fn_ret_type, Call-expr, keeps_rules) depth 40
            fits 5000;
    }

    pub Call-cond : Call tokens inp g.fuel nothing (cond g)
    unfolding cond
    Call-cond = record {
      keeps = λ ks. search (Call-pattern_, Call-expr_no_struct, keeps_rules) depth 40 fits 5000;
    }

    pub Spend-if_expr : Spend tokens inp g.fuel completed (if_expr g)
    unfolding if_expr
    Spend-if_expr = record { spends = λ ks. search (Call-cond, keeps_rules) depth 40 fits 5000 }

  module _ {n : ℕ} where
    pub Call-label : Call tokens inp n nothing label
    unfolding label
    Call-label = record { keeps = λ ks. search (keeps_rules) depth 40 fits 5000 }

    Call-or_start : (marker : Option Marker) → Call tokens inp n nothing (or_start marker)
    unfolding or_start
    Call-or_start none = Call-unmarked tokens inp (Call-start tokens inp)
    Call-or_start (some m) = Call-pure tokens inp m

  module _ (g : Grammar) (calls : Calls tokens inp g) where
    pub Call-loop_expr :
        (marker : Option Marker) → Call tokens inp g.fuel completed (loop_expr g marker)
    unfolding loop_expr
    Call-loop_expr marker = record {
      keeps = λ ks. search (Call-or_start, keeps_rules) depth 40 fits 5000;
    }

    pub Call-while_expr :
        (marker : Option Marker) → Call tokens inp g.fuel completed (while_expr g marker)
    unfolding while_expr
    Call-while_expr marker = record {
      keeps = λ ks. search (Call-or_start, Call-cond, keeps_rules) depth 40 fits 5000;
    }

    pub Call-for_expr :
        (marker : Option Marker) → Call tokens inp g.fuel completed (for_expr g marker)
    unfolding for_expr
    Call-for_expr marker = record {
      keeps = λ ks.
          search (Call-or_start, Call-pattern_, Call-expr_no_struct, keeps_rules) depth 40 fits
            5000;
    }

    pub Call-block_expr :
        (marker : Option Marker) → Call tokens inp g.fuel completed (block_expr g marker)
    unfolding block_expr
    Call-block_expr marker = record {
      keeps = λ ks. search (Call-or_start, keeps_rules) depth 40 fits 5000;
    }

    pub Call-return_expr : Call tokens inp g.fuel completed (return_expr g)
    unfolding return_expr
    Call-return_expr = record { keeps = λ ks. search (Call-expr, keeps_rules) depth 40 fits 5000 }

  module _ {n : ℕ} where
    pub Call-continue_expr : Call tokens inp n completed continue_expr
    unfolding continue_expr
    Call-continue_expr = record { keeps = λ ks. search (keeps_rules) depth 40 fits 5000 }

  module _ (g : Grammar) (calls : Calls tokens inp g) where
    pub Call-break_expr : (r : Restrictions) → Call tokens inp g.fuel completed (break_expr g r)
    unfolding break_expr
    Call-break_expr r = record { keeps = λ ks. search (Call-expr, keeps_rules) depth 40 fits 5000 }
