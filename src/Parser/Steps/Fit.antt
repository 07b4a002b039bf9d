-- ===== src/Parser/Steps/Fit.antt =====
-- Whatever a grammar does through the parser (crates/ra_syntax/src/parser_impl.rs), its events stay
-- linked and account for the tokens that it read.
use rust_analyzer.Base.{
  ℕ, ◌+◌, ◌≡◌, refl, List, [], ◌∷◌, ◌++◌, Option, none, some, if◌then◌else◌, true, false, Bool,
  subst, leb,
}
use Prim.Native.String.{String}
use rust_analyzer.Lexer.Tokenize.{Token}
use rust_analyzer.Parser.Event
use rust_analyzer.Parser.Event.{Event, start, finish, token, error}
use rust_analyzer.Parser.Input.{ParserInput}
use rust_analyzer.Parser.Impl
use rust_analyzer.Parser.Impl.{Parse, ◌>>=◌, ParserImpl, do_bump, push_event}
use rust_analyzer.Parser.Process.Trivia.{skip_trivias}
use rust_analyzer.Parser.Process.Links.{IsLinked}
use rust_analyzer.Parser.Steps.Aligned.{Aligned}
use rust_analyzer.Parser.Steps.Links.{IsTop, IsLinked-push}
use rust_analyzer.Parser.Steps.Takes.{Takes, Takes-append}

module _ (tokens : List Token) (inp : ParserInput) where
  -- The events are linked, and their tokens lead to those from the current one on.
  pub record Fit (p : ParserImpl) : Type 0 where
    pub linked : IsLinked p.events
    pub rest : List Token
    pub takes : Takes p.events (skip_trivias tokens) rest
    pub aligned : Aligned inp rest p.pos

  -- An operation that does not panic leaves a fit state.
  abbrev pub Keeps : {A : Type 0} → Option (A × ParserImpl) → Type 0
  Keeps none = Unit
  Keeps (some r) = Fit r.1

  pub Keeps-if :
      {A : Type 0} (b : Bool) (x y : Option (A × ParserImpl))
      → Keeps x
      → Keeps y
      → Keeps (if b then x else y)
  Keeps-if true x y hx hy = hx
  Keeps-if false x y hx hy = hy

  pub Fit-Keeps :
      {A : Type 0} (o : Option (A × ParserImpl)) (a : A) (q : ParserImpl)
      → o ≡ some (a, q)
      → Keeps o
      → Fit q
  Fit-Keeps o a q e k = subst Keeps e k

  pub Fit-steps : (p : ParserImpl) (steps : ℕ) → Fit p → Fit (record p { steps = steps })
  Fit-steps p steps f = record {
    linked = f.linked;
    rest = f.rest;
    takes = f.takes;
    aligned = f.aligned;
  }

  -- An event that takes no token.
  abbrev pub IsBare : Event → Type 0
  IsBare event = (solid : List Token) → Takes (event ∷ []) solid solid

  pub Fit-push :
      (p : ParserImpl) (event : Event)
      → IsTop event
      → IsBare event
      → Fit p
      → Fit (record p { events = p.events ++ event ∷ [] })
  Fit-push p event top bare f = record {
    linked = IsLinked-push p.events event top f.linked;
    rest = f.rest;
    takes = Takes-append p.events (event ∷ []) _ f.rest f.rest f.takes (bare f.rest);
    aligned = f.aligned;
  }

  pub Keeps-nth : (n : ℕ) (p : ParserImpl) → Fit p → Keeps (Impl.nth inp n p)
  unfolding Impl.nth
  Keeps-nth n p f = Keeps-if (leb p.steps Impl.max_steps) _ _ (Fit-steps p (p.steps + 1) f) tt

  pub Keeps-start : (p : ParserImpl) → Fit p → Keeps (Impl.start p)
  unfolding Impl.start Impl.pure Impl.◌>>=◌ Takes
  Keeps-start p f = Fit-push p Event.tombstone (λ k g e. cc e) (λ s. refl) f

  pub Keeps-error : (msg : String) (p : ParserImpl) → Fit p → Keeps (Impl.error msg p)
  unfolding Impl.error Takes
  Keeps-error msg p f = Fit-push p (error msg) (λ k g e. cc e) (λ s. refl) f
