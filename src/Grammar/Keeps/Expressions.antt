-- ===== src/Grammar/Keeps/Expressions.antt =====
-- What crates/ra_syntax/src/grammar/expressions.rs keeps: expressions and their operands.
use rust_analyzer.Base.{Bool, List, Option, none, some, ℕ, ◌++◌, ◌∷◌}
use rust_analyzer.Grammar.Entries.{BlockLike, Grammar, Restrictions}
use rust_analyzer.Grammar.Expressions.{
  atom_expr, atom_of, block_or_jump, blocklike_of, done, expr_bp, if_or_loop, labelled, lhs,
  literal_or_atom, operators, postfix_of, prefix_end, unsafe_block,
}
use rust_analyzer.Grammar.Exprs.{postfix_expr}
use rust_analyzer.Grammar.Keeps.Atoms.{
  Call-array_expr, Call-block_expr, Call-break_expr, Call-continue_expr, Call-for_expr, Call-label,
  Call-lambda_expr, Call-loop_expr, Call-return_expr, Call-tuple_expr, Call-while_expr,
  Spend-if_expr,
}
use rust_analyzer.Grammar.Keeps.Auto.{keeps_rules}
use rust_analyzer.Grammar.Keeps.Entries.{Calls}
use rust_analyzer.Grammar.Keeps.Exprs.{Call-path_expr, SpendAt-postfix_expr}
use rust_analyzer.Grammar.Keeps.Facts.{Fact, Forgets, below, forgets_none, forgets_one, has_below}
use rust_analyzer.Grammar.Keeps.Loops.{Keeps-loop}
use rust_analyzer.Grammar.Keeps.MatchArms.{Call-match_expr}
use rust_analyzer.Grammar.Keeps.Operators.{SpendAt-expr_round}
use rust_analyzer.Grammar.Keeps.Paths.{Spend-is_path_start}
use rust_analyzer.Grammar.Keeps.Patterns.{Spend-literal}
use rust_analyzer.Grammar.Keeps.Rules.{
  Call, Call-Spend, CallAt, CallAt-SpendAt, Keeps, Spend, completed, has_none, has_one, Keeps-bind,
  Keeps-bind_at, Keeps-completed, Keeps-if, Keeps-last, Keeps-maybe, Keeps-pure, Keeps-then,
  maybe_like, nothing, Spends-bind,
}
use rust_analyzer.Grammar.Monad.{Gram, ◌>>=◌}
use rust_analyzer.Lexer.Tokenize.{Token}
use rust_analyzer.Parser.Api.{CompletedMarker, Marker}
use rust_analyzer.Parser.Input.{ParserInput}
use rust_analyzer.SyntaxKind.{SyntaxKind}

module _ (tokens : List Token) (inp : ParserInput) where
  module _ {n : ℕ} where
    Keeps-done :
        {ks ls : List Fact} {m : Gram CompletedMarker}
        → Call tokens inp n completed m
        → Forgets ks ls
        → Keeps tokens inp n ks ls maybe_like (done m)
    unfolding done
    Keeps-done h d = Keeps-completed tokens inp h λ a.
        Keeps-pure tokens inp (some (a, blocklike_of a.kind)) (has_one has_below) (forgets_one d)

  module _ (g : Grammar) (calls : Calls tokens inp g) where
    pub Call-labelled : Call tokens inp g.fuel maybe_like (labelled g)
    unfolding labelled
    Call-labelled = record {
      keeps = λ ks.
          search
            (
              Keeps-done, Call-label, Call-loop_expr, Call-for_expr, Call-while_expr,
              Call-block_expr, keeps_rules,
            )
            depth 40 fits 5000;
    }

    pub Call-unsafe_block : Call tokens inp g.fuel completed (unsafe_block g)
    unfolding unsafe_block
    Call-unsafe_block = record {
      keeps = λ ks. search (Call-block_expr, keeps_rules) depth 40 fits 5000;
    }

    pub Call-block_or_jump :
        (r : Restrictions) (kind la : SyntaxKind)
        → Call tokens inp g.fuel maybe_like (block_or_jump g r kind la)
    unfolding block_or_jump
    Call-block_or_jump r kind la = record {
      keeps = λ ks.
          search
            (
              Keeps-done, Call-match_expr, Call-unsafe_block, Call-block_expr, Call-return_expr,
              Call-continue_expr, Call-break_expr, keeps_rules,
            )
            depth 40 fits 5000;
    }

    Keeps-if_or_loop :
        {ks ls : List Fact} (kind la : SyntaxKind)
        {others : Gram (Option (CompletedMarker × BlockLike))}
        → Forgets ks ls
        → Keeps tokens inp g.fuel ks ls maybe_like others
        → Keeps tokens inp g.fuel ks ls maybe_like (if_or_loop g kind la others)
    unfolding if_or_loop
    Keeps-if_or_loop kind la d h =
        Keeps-if tokens inp _
          (Keeps-done (Call-Spend tokens inp (Spend-if_expr tokens inp g calls)) d)
          (Keeps-if tokens inp _ (Keeps-done (Call-loop_expr tokens inp g calls none) d) (
            Keeps-if tokens inp _ (Keeps-done (Call-for_expr tokens inp g calls none) d) (
              Keeps-if tokens inp _ (Keeps-done (Call-while_expr tokens inp g calls none) d)
                (Keeps-if tokens inp _ (Keeps-last tokens inp Call-labelled d) h))))

    pub Call-atom_of :
        (r : Restrictions) (kind la : SyntaxKind)
        → Call tokens inp g.fuel maybe_like (atom_of g r kind la)
    unfolding atom_of
    Call-atom_of r kind la = record {
      keeps = λ ks.
          search
            (
              Keeps-done, Call-tuple_expr, Call-array_expr, Call-lambda_expr, Keeps-if_or_loop,
              Call-block_or_jump, keeps_rules,
            )
            depth 40 fits 5000;
    }

    Call-literal_or_atom :
        (r : Restrictions) → Call tokens inp g.fuel maybe_like (literal_or_atom g r none)
    unfolding literal_or_atom
    Call-literal_or_atom r = record {
      keeps = λ ks. Keeps-then tokens inp (search (Spend-is_path_start, keeps_rules)) λ path.
          Keeps-if tokens inp path
            (Keeps-bind tokens inp (Call-path_expr tokens inp g calls r)
              λ e. Keeps-pure tokens inp (some e) (has_one has_below) (forgets_one forgets_none))
            (search (Call-atom_of, keeps_rules));
    }

    Keeps-literal_atom :
        {ks : List Fact} (r : Restrictions) (m : CompletedMarker)
        → Keeps tokens inp g.fuel (below m.pos ∷ ks) ks maybe_like (literal_or_atom g r (some m))
    unfolding literal_or_atom
    Keeps-literal_atom r m =
        Keeps-pure tokens inp (some (m, BlockLike.not_block)) (has_one has_below)
          (forgets_one forgets_none)

    Call-atom_expr : (r : Restrictions) → Call tokens inp g.fuel maybe_like (atom_expr g r)
    unfolding atom_expr
    Call-atom_expr r = record {
      keeps = λ ks.
          Keeps-maybe tokens inp (literal_or_atom g r)
            (Call-Spend tokens inp (Spend-literal tokens inp)) ((Call-literal_or_atom r).keeps ks)
            (Keeps-literal_atom r);
    }

    CallAt-postfix :
        (e : CompletedMarker) (allow_calls : Bool)
        → CallAt tokens inp g.fuel e.pos completed (postfix_expr g e allow_calls)
    CallAt-postfix e allow_calls =
        CallAt-SpendAt tokens inp (SpendAt-postfix_expr tokens inp g calls e allow_calls)

    Keeps-postfix_of :
        {ks : List Fact} (r : Restrictions) (o : Option (CompletedMarker × BlockLike))
        → Keeps tokens inp g.fuel (maybe_like o ++ ks) ks maybe_like (postfix_of g r o)
    unfolding postfix_of
    Keeps-postfix_of r none = Keeps-pure tokens inp none has_none forgets_none
    Keeps-postfix_of {ks} r (some (e, blocklike)) =
        Keeps-bind_at tokens inp e.pos (CallAt-postfix e _) has_below λ c.
          Keeps-pure tokens inp (some (c, blocklike)) (has_one has_below)
            (forgets_one (forgets_one forgets_none))

    pub Call-prefix_end :
        (r : Restrictions) (m : Marker) (kind : SyntaxKind)
        → Call tokens inp g.fuel maybe_like (prefix_end g r m kind)
    unfolding prefix_end
    Call-prefix_end r m kind = record { keeps = λ ks. search (keeps_rules) depth 40 fits 5000 }

    Call-atom :
        (r : Restrictions) → Call tokens inp g.fuel maybe_like (atom_expr g r >>= postfix_of g r)
    Call-atom r = record {
      keeps = λ ks. Keeps-bind tokens inp (Call-atom_expr r) (Keeps-postfix_of r);
    }

    pub Spend-lhs : (r : Restrictions) → Spend tokens inp g.fuel maybe_like (lhs g r)
    unfolding lhs
    Spend-lhs r = record {
      spends = λ ks. search (Call-prefix_end, Call-atom, keeps_rules) depth 40 fits 5000;
    }

    Keeps-operators :
        {ks : List Fact} (r : Restrictions) (bp : ℕ) (o : Option (CompletedMarker × BlockLike))
        → Keeps tokens inp g.fuel (maybe_like o ++ ks) ks nothing (operators g r bp o)
    unfolding operators
    Keeps-operators r bp none = Keeps-pure tokens inp _ has_none forgets_none
    Keeps-operators r bp (some (e, blocklike)) =
        Keeps-if tokens inp _ (Keeps-pure tokens inp _ has_none (forgets_one forgets_none)) (
          Keeps-loop tokens inp e (SpendAt-expr_round tokens inp g calls r bp) has_below
            (forgets_one forgets_none))

    pub Spend-expr_bp :
        (r : Restrictions) (bp : ℕ) → Spend tokens inp g.fuel nothing (expr_bp g r bp)
    unfolding expr_bp
    Spend-expr_bp r bp = record {
      spends = λ ks. Spends-bind tokens inp (Spend-lhs r) (Keeps-operators r bp);
    }
