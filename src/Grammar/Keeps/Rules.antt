-- ===== src/Grammar/Keeps/Rules.antt =====
-- What a computation of the grammar keeps (crates/ra_syntax/src/grammar/), and the rules for sequences
-- and tests.
use rust_analyzer.Base.{
  ℕ, suc, ◌+◌, ◌≤◌, ◌<◌, List, [], ◌∷◌, ◌++◌, Option, none, some, arith, if◌then◌else◌, true, false,
  Bool,
}
use rust_analyzer.Lexer.Tokenize.{Token}
use rust_analyzer.Parser.Api.{Marker, CompletedMarker}
use rust_analyzer.Parser.Event.{Event}
use rust_analyzer.Parser.Input.{ParserInput}
use rust_analyzer.Parser.Impl
use rust_analyzer.Parser.Impl.{Parse, ParserImpl, max_steps}
use rust_analyzer.Parser.Steps.{Run}
use rust_analyzer.Parser.Steps.Fit.{Fit}
use rust_analyzer.Grammar.Monad.{
  Outcome, returns, panics, spent, Gram, pure, ◌>>=◌, go_on, unreachable, assert, when, or, and,
  not,
}
use rust_analyzer.Grammar.Entries.{BlockLike}
use rust_analyzer.Grammar.Keeps.Facts.{
  Fact, below, alone, Held, Has, Forgets, forgets_none, lt_of_Has, Held-Forgets,
  Held-append-Forgets,
}

-- What a result says about markers.
abbrev pub nothing : {A : Type 0} → A → List Fact
nothing a = []

abbrev pub fresh : Marker → List Fact
fresh m = alone m.pos ∷ []

abbrev pub preceding : Marker → List Fact
preceding m = below m.pos ∷ []

abbrev pub completed : CompletedMarker → List Fact
completed m = below m.pos ∷ []

abbrev pub maybe_completed : Option CompletedMarker → List Fact
maybe_completed none = []
maybe_completed (some m) = completed m

abbrev pub completed_like : CompletedMarker × BlockLike → List Fact
completed_like r = completed r.0

abbrev pub maybe_like : Option (CompletedMarker × BlockLike) → List Fact
maybe_like none = []
maybe_like (some r) = completed r.0

module _ (tokens : List Token) (inp : ParserInput) where
  -- The states that the grammar reaches through the operations of the parser.
  pub record Sound (p : ParserImpl) : Type 0 where
    pub run : Run inp Impl.new p
    pub fit : Fit tokens inp p
    pub bounded : p.steps ≤ suc max_steps

  -- A computation panics, or it ends in a sound state after at least `steps` lookaheads; it does not
  -- run out of fuel.
  abbrev pub Ends : {A : Type 0} → ℕ → List Fact → (A → List Fact) → Outcome A → Type 0
  Ends steps ks R (returns a q) = Sound q × Held q.events (R a ++ ks) × (steps ≤ q.steps)
  Ends steps ks R panics = Unit {0}
  Ends steps ks R spent = ⊥

  -- From a sound state in which `ks` hold and fewer than `n` lookaheads are left, a computation
  -- ends where `ls` and what its result says hold.
  pub record Keeps {A : Type 0} (n : ℕ) (ks ls : List Fact) (R : A → List Fact) (m : Gram A)
      : Type 0 where
    pub ends :
        (p : ParserImpl)
        → Sound p
        → Held p.events ks
        → suc max_steps < p.steps + n
        → Ends p.steps ls R (m inp p)

  -- The same with one lookahead more, where the computation looks ahead.
  pub record Spends {A : Type 0} (n : ℕ) (ks ls : List Fact) (R : A → List Fact) (m : Gram A)
      : Type 0 where
    pub ends :
        (p : ParserImpl)
        → Sound p
        → Held p.events ks
        → suc max_steps < p.steps + suc n
        → Ends (suc p.steps) ls R (m inp p)

  -- Whatever is held is held still.
  pub record Call {A : Type 0} (n : ℕ) (R : A → List Fact) (m : Gram A) : Type 0 where
    pub keeps : (ks : List Fact) → Keeps n ks ks R m

  pub record Spend {A : Type 0} (n : ℕ) (R : A → List Fact) (m : Gram A) : Type 0 where
    pub spends : (ks : List Fact) → Spends n ks ks R m

  -- The same, where the event at `k` is there.
  pub record CallAt {A : Type 0} (n k : ℕ) (R : A → List Fact) (m : Gram A) : Type 0 where
    pub keeps : (ks : List Fact) → Has k ks → Keeps n ks ks R m

  pub record SpendAt {A : Type 0} (n k : ℕ) (R : A → List Fact) (m : Gram A) : Type 0 where
    pub spends : (ks : List Fact) → Has k ks → Spends n ks ks R m

  pub Ends-le :
      {A : Type 0} (low high : ℕ) (ks : List Fact) (R : A → List Fact) (o : Outcome A)
      → low ≤ high
      → Ends high ks R o
      → Ends low ks R o
  Ends-le low high ks R (returns a q) le h = (h.0, h.1, omega (arith, le, h.2))
  Ends-le low high ks R panics le h = tt
  Ends-le low high ks R spent le h = h

  pub Ends-go_on :
      {A B : Type 0} (low high : ℕ) (ks ls : List Fact) (R : A → List Fact) (T : B → List Fact)
      (o : Outcome A) (f : A → ParserImpl → Outcome B)
      → Ends low ks R o
      → ((a : A) (q : ParserImpl)
          → Sound q
          → Held q.events (R a ++ ks)
          → low ≤ q.steps
          → Ends high ls T (f a q))
      → Ends high ls T (go_on f o)
  Ends-go_on low high ks ls R T (returns a q) f h k = k a q h.0 h.1 h.2
  Ends-go_on low high ks ls R T panics f h k = tt
  Ends-go_on low high ks ls R T spent f h k = h

  pub Ends-Forgets :
      {A : Type 0} (low : ℕ) (ks ls : List Fact) (R : A → List Fact) (o : Outcome A)
      → Forgets ks ls
      → Ends low ks R o
      → Ends low ls R o
  Ends-Forgets low ks ls R (returns a q) d h = (h.0, Held-append-Forgets q.events (R a) d h.1, h.2)
  Ends-Forgets low ks ls R panics d h = tt
  Ends-Forgets low ks ls R spent d h = h

  Ends-unmarked :
      (low : ℕ) (ks : List Fact) (o : Outcome Marker) → Ends low ks fresh o → Ends low ks nothing o
  Ends-unmarked low ks (returns a q) h = (h.0, h.1.1, h.2)
  Ends-unmarked low ks panics h = tt
  Ends-unmarked low ks spent h = h

  module _ {A B : Type 0} {n : ℕ} {ks ls : List Fact} {R : A → List Fact} {T : B → List Fact}
      {m : Gram A} {f : A → Gram B} where
    pub Keeps-bind :
        Call n R m → ((a : A) → Keeps n (R a ++ ks) ls T (f a)) → Keeps n ks ls T (m >>= f)
    unfolding ◌>>=◌
    Keeps-bind h k = record {
      ends = λ p s held fuel.
          Ends-go_on p.steps p.steps ks ls R T (m inp p) (λ a q. f a inp q)
            ((h.keeps ks).ends p s held fuel)
            λ a q s' held' le.
              Ends-le p.steps q.steps ls T (f a inp q) le
                ((k a).ends q s' held' (omega (arith, fuel, le)));
    }

    pub Spends-bind :
        Spend n R m → ((a : A) → Keeps n (R a ++ ks) ls T (f a)) → Spends n ks ls T (m >>= f)
    unfolding ◌>>=◌
    Spends-bind h k = record {
      ends = λ p s held fuel.
          Ends-go_on (suc p.steps) (suc p.steps) ks ls R T (m inp p) (λ a q. f a inp q)
            ((h.spends ks).ends p s held fuel)
            λ a q s' held' le.
              Ends-le (suc p.steps) q.steps ls T (f a inp q) le
                ((k a).ends q s' held' (omega (arith, fuel, le)));
    }

    pub Spends-later :
        Call (suc n) R m → ((a : A) → Spends n (R a ++ ks) ls T (f a)) → Spends n ks ls T (m >>= f)
    unfolding ◌>>=◌
    Spends-later h k = record {
      ends = λ p s held fuel.
          Ends-go_on p.steps (suc p.steps) ks ls R T (m inp p) (λ a q. f a inp q)
            ((h.keeps ks).ends p s held fuel)
            λ a q s' held' le.
              Ends-le (suc p.steps) (suc q.steps) ls T (f a inp q) (omega (arith, le))
                ((k a).ends q s' held' (omega (arith, fuel, le)));
    }

    -- A computation that needs an event that is held.
    pub Keeps-bind_at :
        (k : ℕ)
        → CallAt n k R m
        → Has k ks
        → ((a : A) → Keeps n (R a ++ ks) ls T (f a))
        → Keeps n ks ls T (m >>= f)
    unfolding ◌>>=◌
    Keeps-bind_at i h has k = record {
      ends = λ p s held fuel.
          Ends-go_on p.steps p.steps ks ls R T (m inp p) (λ a q. f a inp q)
            ((h.keeps ks has).ends p s held fuel)
            λ a q s' held' le.
              Ends-le p.steps q.steps ls T (f a inp q) le
                ((k a).ends q s' held' (omega (arith, fuel, le)));
    }

  module _ {A : Type 0} {n : ℕ} {ks ls : List Fact} {R : A → List Fact} {m : Gram A} where
    pub Keeps-last : Call n R m → Forgets ks ls → Keeps n ks ls R m
    Keeps-last h d = record {
      ends = λ p s held fuel.
          Ends-Forgets p.steps ks ls R (m inp p) d ((h.keeps ks).ends p s held fuel);
    }

    pub Keeps-last_at : (k : ℕ) → CallAt n k R m → Has k ks → Forgets ks ls → Keeps n ks ls R m
    Keeps-last_at i h has d = record {
      ends = λ p s held fuel.
          Ends-Forgets p.steps ks ls R (m inp p) d ((h.keeps ks has).ends p s held fuel);
    }

    pub Spends-last : Spend n R m → Forgets ks ls → Spends n ks ls R m
    Spends-last h d = record {
      ends = λ p s held fuel.
          Ends-Forgets (suc p.steps) ks ls R (m inp p) d ((h.spends ks).ends p s held fuel);
    }

  module _ {A : Type 0} {n : ℕ} {R : A → List Fact} {m : Gram A} where
    pub Call-Spend : Spend n R m → Call n R m
    Call-Spend h = record {
      keeps = λ ks. record {
        ends = λ p s held fuel.
            Ends-le p.steps (suc p.steps) ks R (m inp p) (omega arith)
              ((h.spends ks).ends p s held (omega (arith, fuel)));
      };
    }

    pub CallAt-SpendAt : {k : ℕ} → SpendAt n k R m → CallAt n k R m
    CallAt-SpendAt h = record {
      keeps = λ ks has. record {
        ends = λ p s held fuel.
            Ends-le p.steps (suc p.steps) ks R (m inp p) (omega arith)
              ((h.spends ks has).ends p s held (omega (arith, fuel)));
      };
    }

    -- One lookahead pays for a round.
    pub Call_suc : Spend n R m → Call (suc n) R m
    Call_suc h = record {
      keeps = λ ks. record {
        ends = λ p s held fuel.
            Ends-le p.steps (suc p.steps) ks R (m inp p) (omega arith)
              ((h.spends ks).ends p s held fuel);
      };
    }

  module _ {A : Type 0} {n : ℕ} {ks ls : List Fact} {R : A → List Fact} {x y : Gram A} where
    pub Keeps-if :
        (b : Bool) → Keeps n ks ls R x → Keeps n ks ls R y → Keeps n ks ls R (if b then x else y)
    Keeps-if true h k = h
    Keeps-if false h k = k

  module _ {A : Type 0} {n : ℕ} {R : A → List Fact} {x y : Gram A} where
    pub Call-if :
        (b : Bool)
        → ((ks : List Fact) → Keeps n ks ks R x)
        → ((ks : List Fact) → Keeps n ks ks R y)
        → Call n R (if b then x else y)
    Call-if b h k = record { keeps = λ ks. Keeps-if b (h ks) (k ks) }

  on_maybe :
      {B : Type 0} {n : ℕ} {ks ls : List Fact} {T : B → List Fact}
      (f : Option CompletedMarker → Gram B)
      → Keeps n ks ls T (f none)
      → ((a : CompletedMarker) → Keeps n (below a.pos ∷ ks) ls T (f (some a)))
      → (o : Option CompletedMarker) → Keeps n (maybe_completed o ++ ks) ls T (f o)
  on_maybe f k l none = k
  on_maybe f k l (some a) = l a

  -- The rules for the results that say nothing, and for those that are markers.
  module _ {n : ℕ} {ks ls : List Fact} {B : Type 0} {T : B → List Fact} where
    pub Keeps-then :
        {A : Type 0} {m : Gram A} {f : A → Gram B}
        → Call n nothing m
        → ((a : A) → Keeps n ks ls T (f a))
        → Keeps n ks ls T (m >>= f)
    Keeps-then h k = Keeps-bind h k

    pub Spends-then :
        {A : Type 0} {m : Gram A} {f : A → Gram B}
        → Spend n nothing m
        → ((a : A) → Keeps n ks ls T (f a))
        → Spends n ks ls T (m >>= f)
    Spends-then h k = Spends-bind h k

    pub Keeps-fresh :
        {m : Gram Marker} {f : Marker → Gram B}
        → Call n fresh m
        → ((a : Marker) → Keeps n (alone a.pos ∷ ks) ls T (f a))
        → Keeps n ks ls T (m >>= f)
    Keeps-fresh h k = Keeps-bind h k

    pub Keeps-completed :
        {m : Gram CompletedMarker} {f : CompletedMarker → Gram B}
        → Call n completed m
        → ((a : CompletedMarker) → Keeps n (below a.pos ∷ ks) ls T (f a))
        → Keeps n ks ls T (m >>= f)
    Keeps-completed h k = Keeps-bind h k

    pub Spends-completed :
        {m : Gram CompletedMarker} {f : CompletedMarker → Gram B}
        → Spend n completed m
        → ((a : CompletedMarker) → Keeps n (below a.pos ∷ ks) ls T (f a))
        → Spends n ks ls T (m >>= f)
    Spends-completed h k = Spends-bind h k

    -- A marker, or not.
    pub Keeps-maybe :
        {m : Gram (Option CompletedMarker)} (f : Option CompletedMarker → Gram B)
        → Call n maybe_completed m
        → Keeps n ks ls T (f none)
        → ((a : CompletedMarker) → Keeps n (below a.pos ∷ ks) ls T (f (some a)))
        → Keeps n ks ls T (m >>= f)
    Keeps-maybe f h k l = Keeps-bind h (on_maybe f k l)

    pub Spends-maybe :
        {m : Gram (Option CompletedMarker)} (f : Option CompletedMarker → Gram B)
        → Spend n maybe_completed m
        → Keeps n ks ls T (f none)
        → ((a : CompletedMarker) → Keeps n (below a.pos ∷ ks) ls T (f (some a)))
        → Spends n ks ls T (m >>= f)
    Spends-maybe f h k l = Spends-bind h (on_maybe f k l)

  -- A computation that makes a new marker of one that is held.
  pub Keeps-extend :
      {B : Type 0} {n : ℕ} {ks ls : List Fact} {T : B → List Fact} {f : CompletedMarker → Gram B}
      (m : CompletedMarker → Gram CompletedMarker) (lhs : CompletedMarker)
      → ((l : CompletedMarker) → CallAt n l.pos completed (m l))
      → Has lhs.pos ks
      → ((a : CompletedMarker) → Keeps n (below a.pos ∷ ks) ls T (f a))
      → Keeps n ks ls T (m lhs >>= f)
  Keeps-extend m lhs h has k = Keeps-bind_at lhs.pos (h lhs) has k

  -- A marker that was started and is only to be completed.
  pub Call-unmarked : {n : ℕ} {m : Gram Marker} → Call n fresh m → Call n nothing m
  Call-unmarked h = record {
    keeps = λ ks. record {
      ends = λ p s held fuel. Ends-unmarked p.steps ks _ ((h.keeps ks).ends p s held fuel);
    };
  }

  -- What a result says is held.
  pub data HasAll : List Fact → List Fact → Type 0 where
    has_none : {ks : List Fact} → HasAll [] ks
    has_one : {k : ℕ} {ks : List Fact} → Has k ks → HasAll (below k ∷ []) ks

  Held-HasAll :
      {new ks ls : List Fact} (es : List Event)
      → HasAll new ks
      → Forgets ks ls
      → Held es ks
      → Held es (new ++ ls)
  Held-HasAll es has_none d h = Held-Forgets es d h
  Held-HasAll es (has_one has) d h = (lt_of_Has es has h, Held-Forgets es d h)

  pub Keeps-pure :
      {A : Type 0} {n : ℕ} {ks ls : List Fact} {R : A → List Fact} (a : A)
      → HasAll (R a) ks
      → Forgets ks ls
      → Keeps n ks ls R (pure a)
  unfolding pure
  Keeps-pure a has d = record {
    ends = λ p s held fuel. (s, Held-HasAll p.events has d held, omega arith);
  }

  pub Call-pure : {A : Type 0} {n : ℕ} (a : A) → Call n nothing (pure a)
  Call-pure a = record { keeps = λ ks. Keeps-pure a has_none forgets_none }

  pub Keeps-unreachable :
      {A : Type 0} {n : ℕ} {ks ls : List Fact} {R : A → List Fact} → Keeps n ks ls R unreachable
  unfolding unreachable
  Keeps-unreachable = record { ends = λ p s held fuel. tt }

  pub Call-assert : {n : ℕ} (b : Bool) → Call n nothing (assert b)
  unfolding assert
  Call-assert b = record {
    keeps = λ ks. Keeps-if b (Keeps-pure tt has_none forgets_none) Keeps-unreachable;
  }

  pub Call-when :
      {n : ℕ} (b : Bool) {m : Gram (Unit {0})}
      → ((ks : List Fact) → Keeps n ks ks nothing m)
      → Call n nothing (when b m)
  unfolding when
  Call-when b h = record { keeps = λ ks. Keeps-if b (h ks) (Keeps-pure tt has_none forgets_none) }

  module _ {n : ℕ} {l r : Gram Bool} where
    pub Call-or : Call n nothing l → Call n nothing r → Call n nothing (or l r)
    unfolding or
    Call-or h k = record {
      keeps = λ ks.
          Keeps-bind h
            λ a. Keeps-if a (Keeps-pure true has_none forgets_none) (Keeps-last k forgets_none);
    }

    pub Call-and : Call n nothing l → Call n nothing r → Call n nothing (and l r)
    unfolding and
    Call-and h k = record {
      keeps = λ ks.
          Keeps-bind h
            λ a. Keeps-if a (Keeps-last k forgets_none) (Keeps-pure false has_none forgets_none);
    }

    pub Spend-or : Spend n nothing l → Call n nothing r → Spend n nothing (or l r)
    unfolding or
    Spend-or h k = record {
      spends = λ ks.
          Spends-bind h
            λ a. Keeps-if a (Keeps-pure true has_none forgets_none) (Keeps-last k forgets_none);
    }

    pub Spend-and : Spend n nothing l → Call n nothing r → Spend n nothing (and l r)
    unfolding and
    Spend-and h k = record {
      spends = λ ks.
          Spends-bind h
            λ a. Keeps-if a (Keeps-last k forgets_none) (Keeps-pure false has_none forgets_none);
    }

  module _ {n : ℕ} {l : Gram Bool} where
    pub Call-not : Call n nothing l → Call n nothing (not l)
    unfolding not
    Call-not h = record { keeps = λ ks. Keeps-bind h λ a. Keeps-pure _ has_none forgets_none }

    pub Spend-not : Spend n nothing l → Spend n nothing (not l)
    unfolding not
    Spend-not h = record { spends = λ ks. Spends-bind h λ a. Keeps-pure _ has_none forgets_none }
