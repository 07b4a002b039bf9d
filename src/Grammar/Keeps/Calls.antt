-- ===== src/Grammar/Keeps/Calls.antt =====
-- What the functions of crates/ra_syntax/src/parser_api.rs keep.
use Prim.Native.String.{String}
use rust_analyzer.Base.{
  ℕ, suc, ◌+◌, ◌≤◌, ◌<◌, List, [], ◌∷◌, ◌++◌, Option, none, some, arith, if◌then◌else◌, true, false,
  Bool, ◌==◌,
}
use rust_analyzer.Base
use rust_analyzer.SyntaxKind
use rust_analyzer.SyntaxKind.{SyntaxKind}
use rust_analyzer.SyntaxKind.Text.{text_eq}
use rust_analyzer.TokenSet
use rust_analyzer.TokenSet.{TokenSet}
use rust_analyzer.Lexer.Tokenize.{Token}
use rust_analyzer.Parser.Input
use rust_analyzer.Parser.Input.{ParserInput}
use rust_analyzer.Parser.Impl
use rust_analyzer.Parser.Impl.{Parse, ParserImpl, max_steps}
use rust_analyzer.Parser.Api
use rust_analyzer.Parser.Api.{Marker, CompletedMarker}
use rust_analyzer.Grammar.Monad.{outcome, Gram, lift, ◌>>=◌}
use rust_analyzer.Grammar.Ops.{
  nth, current, at, at_ts, next2, next3, at_contextual_kw, bump, bump_remap, error, eat, expect,
  err_recover, err_and_bump, start, complete, abandon, precede, nth_is, assert_at, at_neither,
  before, comma_unless_at,
}
use rust_analyzer.Grammar.Keeps.Facts.{
  Fact, below, alone, Held, Has, Forgets, forgets_none, forgets_one, lt_of_Has, Held-Forgets,
}
use rust_analyzer.Grammar.Keeps.Rules.{
  Sound, Ends, Ends-le, Ends-go_on, nothing, fresh, preceding, completed, Keeps, Spends, Call,
  Spend, CallAt, Call-Spend, Keeps-pure, has_none, Keeps-bind, Keeps-bind_at, Keeps-if, Spends-bind,
  Keeps-last, Call-assert, Spend-and, Spend-not,
}
use rust_analyzer.Grammar.Keeps.Ops.{Ends-nth, Ends-error, Ends-start, Ends-bump, Ends-bump_remap}
use rust_analyzer.Grammar.Keeps.Markers.{Ends-complete, Ends-abandon, Ends-precede}

module _ (tokens : List Token) (inp : ParserInput) where
  outcome_bind :
      {A B : Type 0} (low high : ℕ) (ks ls : List Fact) (R : A → List Fact) (T : B → List Fact)
      (o : Option (A × ParserImpl)) (f : A → Parse B)
      → Ends tokens inp low ks R (outcome o)
      → ((a : A) (q : ParserImpl)
          → Sound tokens inp q
          → Held q.events (R a ++ ks)
          → low ≤ q.steps
          → Ends tokens inp high ls T (outcome (f a q)))
      → Ends tokens inp high ls T (outcome (Base.◌>>=◌ o (λ (a, q). f a q)))
  outcome_bind low high ks ls R T none f h k = tt
  outcome_bind low high ks ls R T (some (a, q)) f h k = k a q h.0 h.1 h.2

  module _ {A B : Type 0} {n : ℕ} {ks ls : List Fact} (R : A → List Fact) {T : B → List Fact}
      (m : ParserInput → Parse A) (f : ParserInput → A → Parse B) where
    Keeps-lift :
        Call tokens inp n R (lift m)
        → ((a : A) → Keeps tokens inp n (R a ++ ks) ls T (lift (λ i. f i a)))
        → Keeps tokens inp n ks ls T (lift (λ i. Impl.◌>>=◌ (m i) (f i)))
    unfolding lift Impl.◌>>=◌
    Keeps-lift h k = record {
      ends = λ p s held fuel.
          outcome_bind p.steps p.steps ks ls R T (m inp p) (f inp) ((h.keeps ks).ends p s held fuel)
            λ a q s' held' le.
              Ends-le tokens inp p.steps q.steps ls T (outcome (f inp a q)) le
                ((k a).ends q s' held' (omega (arith, fuel, le)));
    }

    Spends-lift :
        Spend tokens inp n R (lift m)
        → ((a : A) → Keeps tokens inp n (R a ++ ks) ls T (lift (λ i. f i a)))
        → Spends tokens inp n ks ls T (lift (λ i. Impl.◌>>=◌ (m i) (f i)))
    unfolding lift Impl.◌>>=◌
    Spends-lift h k = record {
      ends = λ p s held fuel.
          outcome_bind (suc p.steps) (suc p.steps) ks ls R T (m inp p) (f inp)
            ((h.spends ks).ends p s held fuel)
            λ a q s' held' le.
              Ends-le tokens inp (suc p.steps) q.steps ls T (outcome (f inp a q)) le
                ((k a).ends q s' held' (omega (arith, fuel, le)));
    }

  Keeps-lift_if :
      {A : Type 0} {n : ℕ} {ks ls : List Fact} {R : A → List Fact} (b : Bool)
      (x y : ParserInput → Parse A)
      → Keeps tokens inp n ks ls R (lift x)
      → Keeps tokens inp n ks ls R (lift y)
      → Keeps tokens inp n ks ls R (lift (λ i. if b then x i else y i))
  Keeps-lift_if true x y h k = h
  Keeps-lift_if false x y h k = k

  Keeps-lift-pure :
      {A : Type 0} {n : ℕ} {ks ls : List Fact} (a : A)
      → Forgets ks ls
      → Keeps tokens inp n ks ls nothing (lift (λ i. Impl.pure a))
  unfolding lift Impl.pure
  Keeps-lift-pure a d = record {
    ends = λ p s held fuel. (s, Held-Forgets p.events d held, omega arith);
  }

  Ends-text :
      (p : ParserImpl) (ks : List Fact) (t : List ℕ) (o : Option (List ℕ))
      → Sound tokens inp p
      → Held p.events ks
      → Ends tokens inp p.steps ks nothing (outcome (Base.◌>>=◌ o λ text. some (text_eq text t, p)))
  Ends-text p ks t none s held = tt
  Ends-text p ks t (some text) s held = (s, held, omega arith)

  module _ {n : ℕ} where
    pub Spend-nth : (k : ℕ) → Spend tokens inp n nothing (nth k)
    unfolding nth lift Api.nth
    Spend-nth k = record {
      spends = λ ks. record { ends = λ p s held fuel. Ends-nth tokens inp k p ks s held };
    }

    pub Spend-current : Spend tokens inp n nothing current
    unfolding current Api.current Api.nth lift
    Spend-current = record {
      spends = λ ks. record { ends = λ p s held fuel. Ends-nth tokens inp 0 p ks s held };
    }

    pub Spend-at : (kind : SyntaxKind) → Spend tokens inp n nothing (at kind)
    unfolding at Api.at current
    Spend-at kind = record {
      spends = λ ks.
          Spends-lift nothing (λ i. Api.current i) (λ i c. Impl.pure (c == kind)) Spend-current
            λ c. Keeps-lift-pure (c == kind) forgets_none;
    }

    pub Spend-at_ts : (kinds : TokenSet) → Spend tokens inp n nothing (at_ts kinds)
    unfolding at_ts Api.at_ts current
    Spend-at_ts kinds = record {
      spends = λ ks.
          Spends-lift nothing (λ i. Api.current i) (λ i c. Impl.pure (TokenSet.contains kinds c))
            Spend-current λ c. Keeps-lift-pure (TokenSet.contains kinds c) forgets_none;
    }

    pub Spend-bump : Spend tokens inp n nothing bump
    unfolding bump Api.bump lift
    Spend-bump = record {
      spends = λ ks. record { ends = λ p s held fuel. Ends-bump tokens inp p ks s held };
    }

    pub Spend-bump_remap : (kind : SyntaxKind) → Spend tokens inp n nothing (bump_remap kind)
    unfolding bump_remap Api.bump_remap lift
    Spend-bump_remap kind = record {
      spends = λ ks. record { ends = λ p s held fuel. Ends-bump_remap tokens inp kind p ks s held };
    }

    pub Call-error : (message : String) → Call tokens inp n nothing (error message)
    unfolding error Api.error lift
    Call-error message = record {
      keeps = λ ks. record { ends = λ p s held fuel. Ends-error tokens inp message p ks s held };
    }

    pub Spend-eat : (kind : SyntaxKind) → Spend tokens inp n nothing (eat kind)
    unfolding eat Api.eat at bump
    Spend-eat kind = record {
      spends = λ ks.
          Spends-lift nothing (λ i. Api.at i kind) _ (Spend-at kind)
            λ here.
              Keeps-lift_if here _ _
                (Keeps-lift nothing (λ i. Api.bump i) _ (Call-Spend tokens inp Spend-bump)
                  λ _. Keeps-lift-pure true forgets_none)
                (Keeps-lift-pure false forgets_none);
    }

    pub Spend-expect : (kind : SyntaxKind) → Spend tokens inp n nothing (expect kind)
    unfolding expect Api.expect eat error
    Spend-expect kind = record {
      spends = λ ks.
          Spends-lift nothing (λ i. Api.eat i kind) _ (Spend-eat kind)
            λ eaten. Keeps-lift_if eaten _ _ (Keeps-lift-pure true forgets_none) (
              Keeps-lift nothing (λ i. Api.error _) _ (Call-error _)
                λ _. Keeps-lift-pure false forgets_none);
    }

    pub Call-start : Call tokens inp n fresh start
    unfolding start Api.start lift Impl.◌>>=◌ Impl.pure
    Call-start = record {
      keeps = λ ks. record {
        ends = λ p s held fuel.
            outcome_bind p.steps p.steps ks ks (λ pos. alone pos ∷ []) fresh (Impl.start p)
              (λ pos. Impl.pure (record { pos = pos })) (Ends-start tokens inp p ks s held)
              λ a q s' held' le. (s', held', le);
      };
    }

    pub Call-complete :
        (m : Marker) (kind : SyntaxKind) → Call tokens inp n completed (complete m kind)
    unfolding complete Api.complete lift Impl.◌>>=◌ Impl.pure
    Call-complete m kind = record {
      keeps = λ ks. record {
        ends = λ p s held fuel.
            outcome_bind p.steps p.steps ks ks (λ _. below m.pos ∷ []) completed
              (Impl.complete m.pos kind p) (λ _. Impl.pure (record { pos = m.pos; kind = kind }))
              (Ends-complete tokens inp m.pos kind p ks s held) λ a q s' held' le. (s', held', le);
      };
    }

    pub CallAt-precede : (m : CompletedMarker) → CallAt tokens inp n m.pos preceding (precede m)
    unfolding precede Api.precede lift Impl.◌>>=◌ Impl.pure
    CallAt-precede m = record {
      keeps = λ ks has. record {
        ends = λ p s held fuel.
            outcome_bind p.steps p.steps ks ks (λ pos. below pos ∷ []) preceding
              (Impl.precede m.pos p) (λ pos. Impl.pure (record { pos = pos }))
              (Ends-precede tokens inp m.pos p ks (lt_of_Has p.events has held) s held)
              λ a q s' held' le. (s', held', le);
      };
    }

    -- A marker that is abandoned must be nobody's forward parent.
    pub Keeps-abandon :
        {A : Type 0} {ks ls : List Fact} {T : A → List Fact} {m : Marker} {f : Unit {0} → Gram A}
        → ((a : Unit {0}) → Keeps tokens inp n ks ls T (f a))
        → Keeps tokens inp n (alone m.pos ∷ ks) ls T (abandon m >>= f)
    unfolding abandon Api.abandon lift ◌>>=◌
    Keeps-abandon {ks} {ls} {T} {m} {f} k = record {
      ends = λ p s held fuel.
          Ends-go_on tokens inp p.steps p.steps ks ls nothing T (outcome (Impl.abandon m.pos p))
            (λ a q. f a inp q) (Ends-abandon tokens inp m.pos p ks s held)
            λ a q s' held' le.
              Ends-le tokens inp p.steps q.steps ls T (f a inp q) le
                ((k a).ends q s' held' (omega (arith, fuel, le)));
    }

    Call-choice :
        (b : Bool) (kind : SyntaxKind)
        → Call tokens inp n nothing (lift (λ i. if b then Impl.pure true else Api.at i kind))
    unfolding at
    Call-choice b kind = record {
      keeps = λ ks.
          Keeps-lift_if b _ _ (Keeps-lift-pure true forgets_none)
            ((Call-Spend tokens inp (Spend-at kind)).keeps ks);
    }

    Call-choice_ts :
        (b : Bool) (kinds : TokenSet)
        → Call tokens inp n nothing (lift (λ i. if b then Impl.pure true else Api.at_ts i kinds))
    unfolding at_ts
    Call-choice_ts b kinds = record {
      keeps = λ ks.
          Keeps-lift_if b _ _ (Keeps-lift-pure true forgets_none)
            ((Call-Spend tokens inp (Spend-at_ts kinds)).keeps ks);
    }

    pub Spend-err_recover :
        (message : String) (recovery : TokenSet)
        → Spend tokens inp n nothing (err_recover message recovery)
    unfolding err_recover Api.err_recover at error start bump complete
    Spend-err_recover message recovery = record {
      spends = λ ks.
          Spends-lift nothing (λ i. Api.at i SyntaxKind.l_curly) _ (Spend-at SyntaxKind.l_curly)
            λ l. Keeps-lift nothing _ _ (Call-choice l SyntaxKind.r_curly) λ r.
              Keeps-lift nothing _ _ (Call-choice_ts r recovery) λ t.
                Keeps-lift_if t _ _ ((Call-error message).keeps ks) (
                  Keeps-lift fresh (λ i. Api.start) _ Call-start
                    λ m.
                      Keeps-lift nothing (λ i. Api.error message) _ (Call-error message)
                        λ _.
                          Keeps-lift nothing (λ i. Api.bump i) _ (Call-Spend tokens inp Spend-bump)
                            λ _.
                              Keeps-lift completed (λ i. Api.complete m SyntaxKind.error) _
                                (Call-complete m SyntaxKind.error)
                                λ c. Keeps-lift-pure tt (forgets_one (forgets_one forgets_none)));
    }

    pub Spend-err_and_bump : (message : String) → Spend tokens inp n nothing (err_and_bump message)
    unfolding err_and_bump Api.err_and_bump err_recover
    Spend-err_and_bump message = Spend-err_recover message TokenSet.empty

    -- The state is only read.
    pub Call-at_contextual_kw : (t : List ℕ) → Call tokens inp n nothing (at_contextual_kw t)
    unfolding at_contextual_kw Api.at_contextual_kw Impl.at_kw lift
    Call-at_contextual_kw t = record {
      keeps = λ ks. record {
        ends = λ p s held fuel. Ends-text p ks t (Input.token_text inp p.pos) s held;
      };
    }

    pub Call-next2 : Call tokens inp n nothing next2
    unfolding next2 Api.next2 Impl.next2 lift
    Call-next2 = record { keeps = λ ks. record { ends = λ p s held fuel. (s, held, omega arith) } }

    pub Call-next3 : Call tokens inp n nothing next3
    unfolding next3 Api.next3 Impl.next3 lift
    Call-next3 = record { keeps = λ ks. record { ends = λ p s held fuel. (s, held, omega arith) } }

    pub Spend-nth_is : (k : ℕ) (kind : SyntaxKind) → Spend tokens inp n nothing (nth_is k kind)
    unfolding nth_is
    Spend-nth_is k kind = record {
      spends = λ ks.
          Spends-bind tokens inp (Spend-nth k) λ _. Keeps-pure tokens inp _ has_none forgets_none;
    }

    pub Spend-assert_at : (kind : SyntaxKind) → Spend tokens inp n nothing (assert_at kind)
    unfolding assert_at
    Spend-assert_at kind = record {
      spends = λ ks.
          Spends-bind tokens inp (Spend-at kind)
            λ b. Keeps-last tokens inp (Call-assert tokens inp b) forgets_none;
    }

    pub Spend-at_neither :
        (first second : SyntaxKind) → Spend tokens inp n nothing (at_neither first second)
    unfolding at_neither
    Spend-at_neither first second =
        Spend-and tokens inp (Spend-not tokens inp (Spend-at first))
          (Call-Spend tokens inp (Spend-not tokens inp (Spend-at second)))

    pub Spend-before : (ket : SyntaxKind) → Spend tokens inp n nothing (before ket)
    unfolding before
    Spend-before ket = Spend-at_neither SyntaxKind.eof ket

    pub Keeps-precede :
        {A : Type 0} {ks ls : List Fact} {T : A → List Fact} {f : Marker → Gram A}
        (m : CompletedMarker)
        → Has m.pos ks
        → ((a : Marker) → Keeps tokens inp n (below a.pos ∷ ks) ls T (f a))
        → Keeps tokens inp n ks ls T (precede m >>= f)
    Keeps-precede m has k = Keeps-bind_at tokens inp m.pos (CallAt-precede m) has k

    pub Call-comma_unless_at : (ket : SyntaxKind) → Call tokens inp n nothing (comma_unless_at ket)
    unfolding comma_unless_at
    Call-comma_unless_at ket = record {
      keeps = λ ks. Keeps-bind tokens inp (Call-Spend tokens inp (Spend-at ket)) λ here.
          Keeps-if tokens inp here (Keeps-pure tokens inp _ has_none forgets_none) (
            Keeps-bind tokens inp (Call-Spend tokens inp (Spend-expect SyntaxKind.comma))
              λ _. Keeps-pure tokens inp _ has_none forgets_none);
    }
