-- ===== src/Grammar/Keeps/Loops.antt =====
-- Rules for the loops of the grammar (crates/ra_syntax/src/grammar/).
use rust_analyzer.Base.{
  ℕ, zero, suc, ◌+◌, ◌≤◌, ◌<◌, List, [], ◌∷◌, ◌++◌, arith, if◌then◌else◌, true, false, Bool,
}
use rust_analyzer.Base.Loop.{Flow, again, stop}
use rust_analyzer.Lexer.Tokenize.{Token}
use rust_analyzer.Parser.Api.{CompletedMarker}
use rust_analyzer.Parser.Input.{ParserInput}
use rust_analyzer.Parser.Impl.{ParserImpl, max_steps}
use rust_analyzer.Grammar.Monad.{Gram, pure, ◌>>=◌, rounds, loop, next_round, while}
use rust_analyzer.Grammar.Keeps.Facts.{
  Fact, below, Held, Has, Forgets, forgets_none, forgets_one, has_below,
}
use rust_analyzer.Grammar.Keeps.Rules.{
  Sound, Ends, Keeps, Spends, Spend, SpendAt, nothing, completed, Keeps-bind, Spends-bind, Keeps-if,
  Keeps-pure, has_none, has_one, HasAll, Ends-le, Ends-go_on, Ends-Forgets,
}

-- What the end of a round says: of the variables with which the loop goes on, or of the result.
abbrev pub flow : {S A : Type 0} → (S → List Fact) → (A → List Fact) → Flow S A → List Fact
flow F R (again s) = F s
flow F R (stop a) = R a

module _ (tokens : List Token) (inp : ParserInput) where
  pub Has-of : {k : ℕ} {ks : List Fact} → HasAll tokens inp (below k ∷ []) ks → Has k ks
  Has-of (has_one h) = h

  HasAll-flow :
      {ks : List Fact} (on : Bool)
      → HasAll tokens inp
          (flow {S = Unit {0}} {A = Unit {0}} nothing nothing (if on then again tt else stop tt))
          ks
  HasAll-flow true = has_none
  HasAll-flow false = has_none

  module _ {S A : Type 0} (n : ℕ) (F : S → List Fact) (R : A → List Fact)
      (body : S → Gram (Flow S A))
      (lookup : (s : S) (ks : List Fact) → HasAll tokens inp (F s) (F s ++ ks))
      (drop : (s : S) (ks : List Fact) → Forgets (F s ++ ks) ks)
      (h : (s : S) (ks : List Fact)
        → HasAll tokens inp (F s) ks
        → Spends tokens inp n ks ks (flow F R) (body s)) where
    Ends-next_round :
        (low : ℕ) (ks : List Fact) (rest : S → Gram A)
        → ((t : S) (q : ParserImpl)
            → Sound tokens inp q
            → Held q.events (F t ++ ks)
            → low ≤ q.steps
            → Ends tokens inp low ks R (rest t inp q))
        → (f : Flow S A) (q : ParserImpl) → Sound tokens inp q
        → Held q.events (flow F R f ++ ks)
        → low ≤ q.steps
        → Ends tokens inp low ks R (next_round rest f inp q)
    unfolding next_round pure
    Ends-next_round low ks rest k (again t) q sound held le = k t q sound held le
    Ends-next_round low ks rest k (stop a) q sound held le = (sound, held, le)

    Ends-round :
        (s : S) (ks : List Fact) (p : ParserImpl) (rest : S → Gram A)
        → HasAll tokens inp (F s) ks
        → Sound tokens inp p
        → Held p.events ks
        → suc max_steps < p.steps + suc n
        → ((t : S) (q : ParserImpl)
            → Sound tokens inp q
            → Held q.events (F t ++ ks)
            → suc p.steps ≤ q.steps
            → Ends tokens inp (suc p.steps) ks R (rest t inp q))
        → Ends tokens inp (suc p.steps) ks R ((body s >>= next_round rest) inp p)
    unfolding ◌>>=◌
    Ends-round s ks p rest has sound held fuel k =
        Ends-go_on tokens inp (suc p.steps) (suc p.steps) ks ks (flow F R) R (body s inp p)
          (λ f q. next_round rest f inp q) ((h s ks has).ends p sound held fuel)
          (Ends-next_round (suc p.steps) ks rest k)

    -- `k` bounds the rounds: a round that goes on has looked ahead.
    Ends-rounds :
        (k : ℕ) (s : S) (ks : List Fact) (p : ParserImpl)
        → HasAll tokens inp (F s) ks
        → Sound tokens inp p
        → Held p.events ks
        → suc max_steps < p.steps + suc n
        → suc max_steps < p.steps + suc k
        → Ends tokens inp (suc p.steps) ks R (rounds (suc k) body s inp p)
    unfolding rounds
    Ends-rounds zero s ks p has sound held fuel more =
        Ends-round s ks p (rounds zero body) has sound held fuel
          λ t q sound' held' le. absurd (omega (arith, more, le, sound'.bounded))
    Ends-rounds (suc k) s ks p has sound held fuel more =
        Ends-round s ks p (rounds (suc k) body) has sound held fuel λ t q sound' held' le.
          Ends-le tokens inp (suc p.steps) (suc q.steps) ks R (rounds (suc k) body t inp q)
            (omega (arith, le))
            (Ends-Forgets tokens inp (suc q.steps) (F t ++ ks) ks R (rounds (suc k) body t inp q)
              (drop t ks)
              (Ends-rounds k t (F t ++ ks) q (lookup t ks) sound' held' (omega (arith, fuel, le))
                (omega (arith, more, le))))

    pub Spends-loop :
        (s : S) (ks : List Fact)
        → HasAll tokens inp (F s) ks
        → Spends tokens inp n ks ks R (loop n body s)
    unfolding loop
    Spends-loop s ks has = record {
      ends = λ p sound held fuel. Ends-rounds n s ks p has sound held fuel fuel;
    }

  -- A loop over a marker.
  pub SpendAt-loop :
      {A : Type 0} {n : ℕ} {R : A → List Fact}
      {body : CompletedMarker → Gram (Flow CompletedMarker A)} (m : CompletedMarker)
      → ((m : CompletedMarker) → SpendAt tokens inp n m.pos (flow completed R) (body m))
      → SpendAt tokens inp n m.pos R (loop n body m)
  SpendAt-loop {n} {R} {body} m h = record {
    spends = λ ks has.
        Spends-loop n completed R body (λ s ks. has_one has_below)
          (λ s ks. forgets_one forgets_none) (λ s ks all. (h s).spends ks (Has-of all)) m ks
          (has_one has);
  }

  -- A loop that holds no marker.
  pub Spend-loop :
      {S A : Type 0} {n : ℕ} {R : A → List Fact} {body : S → Gram (Flow S A)} (s : S)
      → ((s : S) → Spend tokens inp n (flow nothing R) (body s))
      → Spend tokens inp n R (loop n body s)
  Spend-loop {n} {R} {body} s h = record {
    spends = λ ks.
        Spends-loop n nothing R body (λ s ks. has_none) (λ s ks. forgets_none)
          (λ s ks all. (h s).spends ks) s ks has_none;
  }

  pub Spend-while :
      {n : ℕ} {test body : Gram Bool}
      → Spend tokens inp n nothing test
      → ((ks : List Fact) → Keeps tokens inp n ks ks nothing body)
      → Spend tokens inp n nothing (while n test body)
  unfolding while
  Spend-while h k = Spend-loop tt λ s. record {
    spends = λ ks. Spends-bind tokens inp h λ more.
        Keeps-if tokens inp more
          (Keeps-bind tokens inp (record { keeps = k })
            λ on. Keeps-pure tokens inp _ (HasAll-flow on) forgets_none)
          (Keeps-pure tokens inp _ has_none forgets_none);
  }

  -- A loop over a marker that is held.
  pub Keeps-loop :
      {A : Type 0} {n : ℕ} {ks ls : List Fact} {R : A → List Fact}
      {body : CompletedMarker → Gram (Flow CompletedMarker A)} (m : CompletedMarker)
      → ((m : CompletedMarker) → SpendAt tokens inp n m.pos (flow completed R) (body m))
      → Has m.pos ks
      → Forgets ks ls
      → Keeps tokens inp n ks ls R (loop n body m)
  Keeps-loop {ks} {ls} {R} {body} m h has d = record {
    ends = λ p s held fuel. Ends-Forgets tokens inp p.steps ks ls R (loop _ body m inp p) d (
        Ends-le tokens inp p.steps (suc p.steps) ks R (loop _ body m inp p) (omega arith)
          (((SpendAt-loop m h).spends ks has).ends p s held (omega (arith, fuel))));
  }
