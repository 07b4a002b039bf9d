-- ===== src/Grammar/Keeps/Operators.antt =====
-- What the loop of expr_bp (crates/ra_syntax/src/grammar/expressions.rs) keeps: an operator of several
-- tokens is taken where they touch one another.
use rust_analyzer.Base.{
  ℕ, suc, ◌+◌, ◌-◌, ◌≤◌, ◌<◌, ◌≡◌, refl, length, set, sym, ◌∙◌, ap, subst, List, [], ◌∷◌, ◌++◌,
  Option, none, some, arith, get_elem?, if◌then◌else◌, true, false, Bool, ◌&&◌, ◌==◌, ltb,
  Option-cases, inl, inr,
}
use rust_analyzer.Base
use rust_analyzer.Base.Loop.{stop}
use rust_analyzer.SyntaxKind
use rust_analyzer.SyntaxKind.{SyntaxKind}
use rust_analyzer.Lexer.Tokenize.{Token}
use rust_analyzer.Parser.Api
use rust_analyzer.Parser.Api.{Marker, CompletedMarker}
use rust_analyzer.Parser.Event
use rust_analyzer.Parser.Event.{Event}
use rust_analyzer.Parser.Input
use rust_analyzer.Parser.Input.{ParserInput}
use rust_analyzer.Parser.Impl
use rust_analyzer.Parser.Impl.{ParserImpl, max_steps}
use rust_analyzer.Parser.Steps.{Touching}
use rust_analyzer.Parser.Steps.Compounds.{next2-Touching, next3-Touching}
use rust_analyzer.Grammar.Monad.{
  Outcome, returns, panics, spent, outcome, Gram, lift, go_on, pure, ◌>>=◌,
}
use rust_analyzer.Grammar.Ops.{current, next2, next3, bump_compound, precede}
use rust_analyzer.Grammar.Entries.{Grammar, Restrictions, BlockLike}
use rust_analyzer.Grammar.Expressions.{
  Op, simple, composite, op_of_three, op_of_two, assign_op, returned_or, current_op, simple_bp,
  take_op, apply_op, expr_round,
}
use rust_analyzer.Grammar.Keeps.Facts.{Fact, below, Held, Has}
use rust_analyzer.Grammar.Keeps.Rules.{
  Sound, Ends, Ends-le, Keeps, SpendAt, Call-Spend, nothing, completed, preceding, Spends-then,
  Ends-go_on, Spend-or,
}
use rust_analyzer.Grammar.Keeps.Loops.{flow}
use rust_analyzer.Grammar.Keeps.Ops.{Ends-bump_compound}
use rust_analyzer.Grammar.Keeps.Calls.{Spend-current, Spend-bump, CallAt-precede, Spend-nth_is}
use rust_analyzer.Grammar.Keeps.Auto.{keeps_rules}
use rust_analyzer.Grammar.Keeps.Entries.{Calls}

module _ (tokens : List Token) (inp : ParserInput) where
  -- The tokens that an operator takes touch one another.
  abbrev OpFits : Op → ℕ → Type 0
  OpFits simple pos = Unit {0}
  OpFits (composite kind n) pos =
      (k : ℕ) × (t : Token) × (n ≡ suc k)
      × (get_elem? inp.tokens pos ≡ some t)
      × Touching inp pos (suc k)

  op_of_three-arity :
      (a b c : SyntaxKind) (bp n : ℕ) (kind : SyntaxKind)
      → op_of_three (a, b, c) ≡ some (bp, composite kind n)
      → n ≡ 3
  unfolding op_of_three
  op_of_three-arity a b c bp n kind e = ground arith

  op_of_two-arity :
      (a b : SyntaxKind) (bp n : ℕ) (kind : SyntaxKind)
      → op_of_two (a, b) ≡ some (bp, composite kind n)
      → n ≡ 2
  unfolding op_of_two assign_op
  op_of_two-arity a b bp n kind e = ground arith

  op_of_three-eof : (a b c : SyntaxKind) → a ≡ SyntaxKind.eof → op_of_three (a, b, c) ≡ none
  unfolding op_of_three
  op_of_three-eof a b c e = rw e refl

  op_of_two-eof : (a b : SyntaxKind) → a ≡ SyntaxKind.eof → op_of_two (a, b) ≡ none
  unfolding op_of_two assign_op
  op_of_two-eof a b e = rw e (ground arith)

  some_of_if :
      {A : Type 0} (b : Bool) (x y : A)
      → ◌≡◌ {A = Option A} (if b then some x else none) (some y)
      → x ≡ y
  some_of_if true x y e = cc e
  some_of_if false x y e = cc e

  -- Tokens of an operator of several tokens are there.
  OpFits-three :
      (pos : ℕ) (o : ℕ × Op)
      → Touching inp pos 3
      → op_of_three (Input.kind inp pos, Input.kind inp (pos + 1), Input.kind inp (pos + 2))
        ≡ some o
      → OpFits o.1 pos
  unfolding Input.kind
  OpFits-three pos (bp, simple) touching e = tt
  OpFits-three pos (bp, composite kind n) touching e =
      elim (Option-cases (get_elem? inp.tokens pos)) [
        | inl gone ↦
            let none_here =
              op_of_three-eof (Input.kind inp pos) (Input.kind inp (pos + 1))
                (Input.kind inp (pos + 2)) (rw gone refl) in
            cc (none_here, e)
        | inr (t, here) ↦ (2, t, op_of_three-arity _ _ _ bp n kind e, here, touching)
      ]

  OpFits-two :
      (pos : ℕ) (o : ℕ × Op)
      → Touching inp pos 2
      → op_of_two (Input.kind inp pos, Input.kind inp (pos + 1)) ≡ some o
      → OpFits o.1 pos
  unfolding Input.kind
  OpFits-two pos (bp, simple) touching e = tt
  OpFits-two pos (bp, composite kind n) touching e =
      elim (Option-cases (get_elem? inp.tokens pos)) [
        | inl gone ↦
            let none_here =
              op_of_two-eof (Input.kind inp pos) (Input.kind inp (pos + 1)) (rw gone refl) in
            cc (none_here, e)
        | inr (t, here) ↦ (1, t, op_of_two-arity _ _ bp n kind e, here, touching)
      ]

  -- What current_op leaves: an operator that can be taken.
  abbrev OpEnds : ℕ → List Fact → Outcome (ℕ × Op) → Type 0
  OpEnds low ks (returns o q) =
      Sound tokens inp q × Held q.events ks × (low ≤ q.steps) × OpFits o.1 q.pos
  OpEnds low ks panics = Unit {0}
  OpEnds low ks spent = ⊥

  OpEnds-found :
      (low : ℕ) (ks : List Fact) (p : ParserImpl) (found : Option (ℕ × Op)) (rest : Gram (ℕ × Op))
      → Sound tokens inp p
      → Held p.events ks
      → low ≤ p.steps
      → ((o : ℕ × Op) → found ≡ some o → OpFits o.1 p.pos)
      → OpEnds low ks (rest inp p)
      → OpEnds low ks
          ((elim found as (λ _. Gram (ℕ × Op)) [ some op ↦ pure op | none ↦ rest ]) inp p)
  unfolding pure
  OpEnds-found low ks p none rest s held le fits k = k
  OpEnds-found low ks p (some o) rest s held le fits k = (s, held, le, fits o refl)

  OpEnds-returned_or :
      {A : Type 0} (low : ℕ) (ks : List Fact) (p : ParserImpl) (o : Option A)
      (f : A → Option (ℕ × Op)) (rest : Gram (ℕ × Op))
      → Sound tokens inp p
      → Held p.events ks
      → low ≤ p.steps
      → ((t : A) (op : ℕ × Op) → o ≡ some t → f t ≡ some op → OpFits op.1 p.pos)
      → OpEnds low ks (rest inp p)
      → OpEnds low ks (returned_or o f rest inp p)
  unfolding returned_or
  OpEnds-returned_or low ks p none f rest s held le fits k = k
  OpEnds-returned_or low ks p (some t) f rest s held le fits k =
      OpEnds-found low ks p (f t) rest s held le (λ op e. fits t op refl e) k

  OpEnds-simple :
      (low : ℕ) (ks : List Fact) (o : Outcome SyntaxKind)
      → Ends tokens inp low ks nothing o
      → OpEnds low ks (go_on (λ kind q. returns (simple_bp kind, simple) q) o)
  OpEnds-simple low ks (returns kind q) h = (h.0, h.1, h.2, tt)
  OpEnds-simple low ks panics h = tt
  OpEnds-simple low ks spent h = h

  OpEnds-current_op :
      (n : ℕ) (ks : List Fact) (p : ParserImpl)
      → Sound tokens inp p
      → Held p.events ks
      → suc max_steps < p.steps + n
      → OpEnds p.steps ks (current_op inp p)
  unfolding current_op next3 next2 lift Api.next3 Api.next2 Impl.next3 Impl.next2 pure ◌>>=◌
  OpEnds-current_op n ks p s held fuel =
      OpEnds-returned_or p.steps ks p _ op_of_three _ s held (omega arith)
        (λ t op e f.
          OpFits-three p.pos op (next3-Touching inp p p t (ap (λ o. some (o, p)) e))
            (subst (λ k. op_of_three k ≡ some op) (sym (some_of_if _ _ t e)) f))
        (OpEnds-returned_or p.steps ks p _ op_of_two _ s held (omega arith)
          (λ t op e f.
            OpFits-two p.pos op (next2-Touching inp p p t (ap (λ o. some (o, p)) e))
              (subst (λ k. op_of_two k ≡ some op) (sym (some_of_if _ _ t e)) f))
          (OpEnds-simple p.steps ks (current inp p)
            (((Call-Spend tokens inp (Spend-current tokens inp)).keeps ks).ends p s held fuel)))

  -- Preceding a marker takes no token.
  abbrev SamePos : ℕ → Option (Marker × ParserImpl) → Type 0
  SamePos pos none = Unit {0}
  SamePos pos (some (m, q)) = q.pos ≡ pos

  SamePos-linked :
      (p : ParserImpl) (pos : ℕ) (o : Option Event)
      → SamePos p.pos (
          Base.◌>>=◌ {A = ℕ × ParserImpl} {B = Marker × ParserImpl}
            (Base.◌>>=◌ {A = Unit {0} × ParserImpl}
              (Base.◌>>=◌ o λ event.
                some (tt, record p { events = set (p.events ++ Event.tombstone ∷ []) pos event }))
              (λ r. some (length p.events, r.1)))
            (λ r. some (record { pos = r.0 }, r.1)))
  SamePos-linked p pos none = tt
  SamePos-linked p pos (some e) = refl

  SamePos-precede : (m : CompletedMarker) (p : ParserImpl) → SamePos p.pos (Api.precede m p)
  unfolding Api.precede Impl.precede Impl.start Impl.push_event Impl.pure Impl.◌>>=◌
  SamePos-precede m p = SamePos-linked p m.pos (
      Impl.set_forward_parent (length p.events - m.pos)
        (get_elem? (p.events ++ Event.tombstone ∷ []) m.pos))

  Ends-take_op :
      (n : ℕ) (op : Op) (p : ParserImpl) (ks : List Fact)
      → OpFits op p.pos
      → Sound tokens inp p
      → Held p.events ks
      → suc max_steps < p.steps + n
      → Ends tokens inp p.steps ks nothing (take_op op inp p)
  unfolding take_op bump_compound lift Api.bump_compound
  Ends-take_op n simple p ks fits s held fuel =
      ((Call-Spend tokens inp (Spend-bump tokens inp)).keeps ks).ends p s held fuel
  Ends-take_op n (composite kind m) p ks (k, t, e, here, touching) s held fuel =
      subst (λ w. Ends tokens inp p.steps ks nothing (outcome (Impl.bump_compound kind w p)))
        (sym e) (Ends-bump_compound tokens inp kind k t p ks here touching s held)

  module _ {B : Type 0} {ks ls : List Fact} {T : B → List Fact} (n : ℕ) (op : Op)
      (rest : Marker → Gram B)
      (k : (m : Marker) → Keeps tokens inp n (below m.pos ∷ ks) ls T (rest m)) where
    Ends-operand :
        (low pos : ℕ) (o : Option (Marker × ParserImpl))
        → SamePos pos o
        → OpFits op pos
        → suc max_steps < low + n
        → Ends tokens inp low ks preceding (outcome o)
        → Ends tokens inp low ls T (go_on (λ m q. (take_op op >>= λ _. rest m) inp q) (outcome o))
    unfolding ◌>>=◌
    Ends-operand low pos none same fits fuel h = tt
    Ends-operand low pos (some (m, q)) same fits fuel h =
        Ends-go_on tokens inp q.steps low (below m.pos ∷ ks) ls nothing T (take_op op inp q)
          (λ _ r. rest m inp r)
          (Ends-take_op n op q (below m.pos ∷ ks) (subst (OpFits op) (sym same) fits) h.0 h.1
            (omega (arith, fuel, h.2)))
          λ _ r s' held' le.
            Ends-le tokens inp low r.steps ls T (rest m inp r) (omega (arith, le, h.2))
              ((k m).ends r s' held' (omega (arith, fuel, le, h.2)))

    Ends-precede_take :
        (lhs : CompletedMarker) (p : ParserImpl)
        → OpFits op p.pos
        → Has lhs.pos ks
        → Sound tokens inp p
        → Held p.events ks
        → suc max_steps < p.steps + n
        → Ends tokens inp p.steps ls T ((precede lhs >>= λ m. take_op op >>= λ _. rest m) inp p)
    unfolding ◌>>=◌ precede lift
    Ends-precede_take lhs p fits has s held fuel =
        Ends-operand p.steps p.pos (Api.precede lhs p) (SamePos-precede lhs p) fits fuel
          (((CallAt-precede tokens inp lhs).keeps ks has).ends p s held fuel)

  module _ (g : Grammar) (calls : Calls tokens inp g) where
    Ends-apply_op :
        (r : Restrictions) (is_range : Bool) (lhs : CompletedMarker) (o : ℕ × Op) (p : ParserImpl)
        (ks : List Fact)
        → OpFits o.1 p.pos
        → Has lhs.pos ks
        → Sound tokens inp p
        → Held p.events ks
        → suc max_steps < p.steps + g.fuel
        → Ends tokens inp p.steps ks (flow completed nothing) (apply_op g r is_range lhs o inp p)
    unfolding apply_op
    Ends-apply_op r is_range lhs (op_bp, op) p ks fits has s held fuel =
        Ends-precede_take {ks = ks} {ls = ks} {T = flow completed nothing} g.fuel op _
          (λ m. search keeps_rules depth 40 fits 5000) lhs p fits has s held fuel

    Ends-operator :
        (r : Restrictions) (bp : ℕ) (is_range : Bool) (lhs : CompletedMarker) (low : ℕ)
        (ks : List Fact) (o : Outcome (ℕ × Op))
        → Has lhs.pos ks
        → suc max_steps < low + g.fuel
        → OpEnds low ks o
        → Ends tokens inp low ks (flow completed nothing) (
            go_on
              (λ op q.
                (if ltb op.0 bp
                    then pure (stop BlockLike.not_block)
                    else apply_op g r is_range lhs op)
                  inp q)
              o)
    unfolding pure
    Ends-operator r bp is_range lhs low ks (returns op q) has fuel h = Ends-choice (ltb op.0 bp)
      where
        Ends-choice :
            (b : Bool)
            → Ends tokens inp low ks (flow completed nothing) (
                (if b then pure (stop BlockLike.not_block) else apply_op g r is_range lhs op) inp q)
        Ends-choice true = (h.0, h.1, h.2)
        Ends-choice false =
            Ends-le tokens inp low q.steps ks (flow completed nothing)
              (apply_op g r is_range lhs op inp q) h.2
              (Ends-apply_op r is_range lhs op q ks h.3 has h.0 h.1 (omega (arith, fuel, h.2)))
    Ends-operator r bp is_range lhs low ks panics has fuel h = tt
    Ends-operator r bp is_range lhs low ks spent has fuel h = h

    Keeps-operator :
        (r : Restrictions) (bp : ℕ) (is_range : Bool) (lhs : CompletedMarker) (ks : List Fact)
        → Has lhs.pos ks
        → Keeps tokens inp g.fuel ks ks (flow completed nothing) (
            current_op >>= λ op.
            if ltb op.0 bp then pure (stop BlockLike.not_block) else apply_op g r is_range lhs op)
    unfolding ◌>>=◌
    Keeps-operator r bp is_range lhs ks has = record {
      ends = λ p s held fuel.
          Ends-operator r bp is_range lhs p.steps ks (current_op inp p) has fuel
            (OpEnds-current_op g.fuel ks p s held fuel);
    }

    pub SpendAt-expr_round :
        (r : Restrictions) (bp : ℕ) (lhs : CompletedMarker)
        → SpendAt tokens inp g.fuel lhs.pos (flow completed nothing) (expr_round g r bp lhs)
    unfolding expr_round
    SpendAt-expr_round r bp lhs = record {
      spends = λ ks has.
          Spends-then tokens inp
            (Spend-or tokens inp (Spend-nth_is tokens inp 0 SyntaxKind.dotdot)
              (Call-Spend tokens inp (Spend-nth_is tokens inp 0 SyntaxKind.dotdoteq)))
            λ is_range. Keeps-operator r bp is_range lhs ks has;
    }
