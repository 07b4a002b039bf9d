-- ===== src/Grammar/Keeps/Ops.antt =====
-- The operations of crates/ra_syntax/src/parser_impl.rs in the grammar.
use Prim.Native.String.{String}
use rust_analyzer.Base.{
  ℕ, suc, ◌+◌, ◌≤◌, ◌≡◌, refl, List, [], ◌∷◌, ◌++◌, some, arith, length, get_elem?, if◌then◌else◌,
  true, false, Bool, Bool-cases, inl, inr, leb, ◌==◌, length-append, lt_of_get_elem?,
}
use rust_analyzer.SyntaxKind
use rust_analyzer.SyntaxKind.{SyntaxKind}
use rust_analyzer.Lexer.Tokenize.{Token}
use rust_analyzer.Parser.Event
use rust_analyzer.Parser.Event.{Event}
use rust_analyzer.Parser.Input
use rust_analyzer.Parser.Input.{ParserInput}
use rust_analyzer.Parser.Impl
use rust_analyzer.Parser.Impl.{Parse, ParserImpl, max_steps}
use rust_analyzer.Parser.Process.Links.{IsLinked}
use rust_analyzer.Parser.Steps.{
  NoChild, Touching, Step, then_step, by_nth, by_start, by_bump, by_bump_remap, by_bump_compound,
  by_error,
}
use rust_analyzer.Parser.Steps.Invariant.{Fit-Step}
use rust_analyzer.Grammar.Monad.{outcome}
use rust_analyzer.Grammar.Keeps.Facts.{
  Fact, alone, Held, Frames-push, Held-Frames, Earlier-length, IsTopEvent, at_push,
}
use rust_analyzer.Grammar.Keeps.Rules.{Sound, Ends, Ends-le, nothing}

module _ (tokens : List Token) (inp : ParserInput) where
  pub Sound-Step :
      {p q : ParserImpl}
      → Step inp p q
      → q.steps ≤ suc max_steps
      → Sound tokens inp p
      → Sound tokens inp q
  Sound-Step st bounded s = record {
    run = then_step s.run st;
    fit = Fit-Step tokens inp st s.fit;
    bounded = bounded;
  }

  Le_of_leb : (steps : ℕ) → leb steps max_steps ≡ true → steps + 1 ≤ suc max_steps
  Le_of_leb steps e = ground arith

  -- ParserImpl::nth
  pub Ends-nth :
      (n : ℕ) (p : ParserImpl) (ks : List Fact)
      → Sound tokens inp p
      → Held p.events ks
      → Ends tokens inp (suc p.steps) ks nothing (outcome (Impl.nth inp n p))
  unfolding Impl.nth
  Ends-nth n p ks s held = elim (Bool-cases (leb p.steps max_steps)) [
    | inl e ↦ rw e (
      Sound-Step (by_nth n (Input.kind inp (p.pos + n)) (rw e refl)) (Le_of_leb p.steps e) s,
      held,
      omega arith,
    )
    | inr e ↦ rw e tt
  ]

  -- An event more that names no forward parent.
  pub Held-push :
      (es : List Event) (e : Event) (ks : List Fact)
      → IsTopEvent e
      → Held es ks
      → Held (es ++ e ∷ []) ks
  Held-push es e ks top held = Held-Frames (Frames-push es e top) ks held

  -- ParserImpl::error
  pub Ends-error :
      (msg : String) (p : ParserImpl) (ks : List Fact)
      → Sound tokens inp p
      → Held p.events ks
      → Ends tokens inp p.steps ks nothing (outcome (Impl.error msg p))
  unfolding Impl.error Impl.push_event
  Ends-error msg p ks s held = (
    Sound-Step (by_error msg refl) s.bounded s,
    Held-push p.events (Event.error msg) ks (λ kind d e. cc e) held,
    omega arith,
  )

  -- Nobody's forward parent is an event that is not there yet.
  pub alone_at_end :
      (es : List Event) → IsLinked es → NoChild (es ++ Event.tombstone ∷ []) (length es)
  alone_at_end es linked i kind d e same =
      let here : get_elem? es i ≡ some (Event.start kind (some d)) =
        at_push es Event.tombstone (Event.start kind (some d)) i e (λ t. cc t) in
      absurd (
        omega (
          arith,
          lt_of_get_elem? es (i + d) _ (linked.links i kind (some d) here).1.is_start,
          same,
        ))

  -- ParserImpl::start
  pub Ends-start :
      (p : ParserImpl) (ks : List Fact)
      → Sound tokens inp p
      → Held p.events ks
      → Ends tokens inp p.steps ks (λ pos. alone pos ∷ []) (outcome (Impl.start p))
  unfolding Impl.start Impl.push_event Impl.pure Impl.◌>>=◌
  Ends-start p ks s held = (
    Sound-Step (by_start (length p.events) refl) s.bounded s,
    (
      (
        omega (arith, length-append p.events (Event.tombstone ∷ [])),
        alone_at_end p.events s.fit.linked,
        Earlier-length p.events ks held,
      ),
      Held-push p.events Event.tombstone ks (λ kind d e. cc e) held,
    ),
    omega arith,
  )

  Ends-bump_if :
      (at_eof : Bool) (kind : SyntaxKind) (p q : ParserImpl) (ks : List Fact)
      → ((r : ParserImpl)
          → (if at_eof then Impl.pure tt else Impl.do_bump kind 1) q ≡ some (tt, r)
          → Step inp p r)
      → q.steps ≤ suc max_steps
      → Sound tokens inp p
      → Held q.events ks
      → Ends tokens inp q.steps ks nothing
          (outcome ((if at_eof then Impl.pure tt else Impl.do_bump kind 1) q))
  unfolding Impl.pure Impl.do_bump Impl.push_event
  Ends-bump_if true kind p q ks step bounded s held =
      (Sound-Step (step q refl) bounded s, held, omega arith)
  Ends-bump_if false kind p q ks step bounded s held = (
    Sound-Step (step _ refl) bounded s,
    Held-push q.events (Event.token kind 1) ks (λ kind d e. cc e) held,
    omega arith,
  )

  -- ParserImpl::bump
  pub Ends-bump :
      (p : ParserImpl) (ks : List Fact)
      → Sound tokens inp p
      → Held p.events ks
      → Ends tokens inp (suc p.steps) ks nothing (outcome (Impl.bump inp p))
  unfolding Impl.bump Impl.nth Impl.◌>>=◌
  Ends-bump p ks s held = elim (Bool-cases (leb p.steps max_steps)) [
    | inl e ↦ rw e (
        Ends-le tokens inp (suc p.steps) (p.steps + 1) ks nothing _ (omega arith) (
          Ends-bump_if (Input.kind inp (p.pos + 0) == SyntaxKind.eof) (Input.kind inp (p.pos + 0)) p
            (record p { steps = p.steps + 1 }) ks (λ r taken. by_bump (rw e taken))
            (Le_of_leb p.steps e) s held))
    | inr e ↦ rw e tt
  ]

  -- ParserImpl::bump_remap
  pub Ends-bump_remap :
      (kind : SyntaxKind) (p : ParserImpl) (ks : List Fact)
      → Sound tokens inp p
      → Held p.events ks
      → Ends tokens inp (suc p.steps) ks nothing (outcome (Impl.bump_remap inp kind p))
  unfolding Impl.bump_remap Impl.nth Impl.◌>>=◌
  Ends-bump_remap kind p ks s held = elim (Bool-cases (leb p.steps max_steps)) [
    | inl e ↦ rw e (
        Ends-le tokens inp (suc p.steps) (p.steps + 1) ks nothing _ (omega arith) (
          Ends-bump_if (Input.kind inp (p.pos + 0) == SyntaxKind.eof) kind p
            (record p { steps = p.steps + 1 }) ks (λ r taken. by_bump_remap kind (rw e taken))
            (Le_of_leb p.steps e) s held))
    | inr e ↦ rw e tt
  ]

  -- ParserImpl::bump_compound
  pub Ends-bump_compound :
      (kind : SyntaxKind) (n : ℕ) (t : Token) (p : ParserImpl) (ks : List Fact)
      → get_elem? inp.tokens p.pos ≡ some t
      → Touching inp p.pos (suc n)
      → Sound tokens inp p
      → Held p.events ks
      → Ends tokens inp p.steps ks nothing (outcome (Impl.bump_compound kind (suc n) p))
  unfolding Impl.bump_compound Impl.do_bump Impl.push_event
  Ends-bump_compound kind n t p ks here touching s held = (
    Sound-Step (by_bump_compound kind n t here touching refl) s.bounded s,
    Held-push p.events (Event.token kind (suc n)) ks (λ kind d e. cc e) held,
    omega arith,
  )
