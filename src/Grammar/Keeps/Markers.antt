-- ===== src/Grammar/Keeps/Markers.antt =====
-- The markers of crates/ra_syntax/src/parser_impl.rs in the grammar.
use rust_analyzer.Base.{
  ℕ, ◌+◌, ◌-◌, ◌<◌, ◌≡◌, refl, List, [], ◌∷◌, ◌++◌, Option, none, some, arith, length, get_elem?,
  set, Bool-cases, inl, inr, ◌==◌, length-append, length-set, lt_of_get_elem?,
}
use rust_analyzer.SyntaxKind.{SyntaxKind}
use rust_analyzer.Lexer.Tokenize.{Token}
use rust_analyzer.Parser.Event
use rust_analyzer.Parser.Event.{Event, start, finish, token, error}
use rust_analyzer.Parser.Input.{ParserInput}
use rust_analyzer.Parser.Impl
use rust_analyzer.Parser.Impl.{Parse, ParserImpl, max_steps}
use rust_analyzer.Parser.Steps.{by_complete, by_abandon, by_precede}
use rust_analyzer.Grammar.Monad.{outcome}
use rust_analyzer.Grammar.Keeps.Facts.{
  Fact, below, alone, Held, Frames, Frames-same, Frames-push, Frames-set, Held-Frames, Held-take,
}
use rust_analyzer.Grammar.Keeps.Rules.{Sound, Ends, nothing}
use rust_analyzer.Grammar.Keeps.Ops.{Sound-Step, Held-push}

module _ (tokens : List Token) (inp : ParserInput) where
  Ends-complete_at :
      (pos : ℕ) (kind : SyntaxKind) (p : ParserImpl) (ks : List Fact) (o : Option Event)
      → get_elem? p.events pos ≡ o
      → Sound tokens inp p
      → Held p.events ks
      → Ends tokens inp p.steps ks (λ _. below pos ∷ []) (outcome (Impl.complete pos kind p))
  unfolding Impl.complete Impl.push_event
  Ends-complete_at pos kind p ks none e s held = rw e tt
  Ends-complete_at pos kind p ks (some (start slot fp)) e s held =
      let here = lt_of_get_elem? p.events pos _ e in
      let put = set p.events pos (start kind fp) in
      let framed : Frames p.events put =
        Frames-set p.events p.events pos kind fp (Frames-same p.events) here
          (λ k d h n same. n pos slot d (cc (e, same))) in
      rw e (
        Sound-Step tokens inp (by_complete pos kind (rw e refl)) s.bounded s,
        (
          omega (
            arith,
            here,
            length-append put (finish ∷ []),
            length-set p.events pos (start kind fp),
          ),
          Held-push tokens inp put finish ks (λ k d t. cc t) (Held-Frames framed ks held),
        ),
        omega arith,
      )
  Ends-complete_at pos kind p ks (some finish) e s held = rw e tt
  Ends-complete_at pos kind p ks (some (token k n)) e s held = rw e tt
  Ends-complete_at pos kind p ks (some (error msg)) e s held = rw e tt

  -- ParserImpl::complete
  pub Ends-complete :
      (pos : ℕ) (kind : SyntaxKind) (p : ParserImpl) (ks : List Fact)
      → Sound tokens inp p
      → Held p.events ks
      → Ends tokens inp p.steps ks (λ _. below pos ∷ []) (outcome (Impl.complete pos kind p))
  Ends-complete pos kind p ks s held = Ends-complete_at pos kind p ks _ refl s held

  -- ParserImpl::abandon, of a marker that is nobody's forward parent.
  pub Ends-abandon :
      (pos : ℕ) (p : ParserImpl) (ks : List Fact)
      → Sound tokens inp p
      → Held p.events (alone pos ∷ ks)
      → Ends tokens inp p.steps ks nothing (outcome (Impl.abandon pos p))
  unfolding Impl.abandon
  Ends-abandon pos p ks s held = elim (Bool-cases (pos + 1 == length p.events)) [
    | inl last ↦ elim (Bool-cases (Impl.is_tombstone (get_elem? p.events pos))) [
      | inl tomb ↦
          rw (last, tomb)
            (
              Sound-Step tokens inp (by_abandon pos held.0.1 (rw (last, tomb) refl)) s.bounded s,
              Held-take p.events pos (omega (arith, held.0.0)) ks held.0.2 held.1,
              omega arith,
            )
      | inr other ↦ rw (last, other) tt
    ]
    | inr inner ↦ rw inner (
      Sound-Step tokens inp (by_abandon pos held.0.1 (rw inner refl)) s.bounded s,
      held.1,
      omega arith,
    )
  ]

  Ends-precede_at :
      (pos : ℕ) (p : ParserImpl) (ks : List Fact) (o : Option Event)
      → get_elem? (p.events ++ Event.tombstone ∷ []) pos ≡ o
      → pos < length p.events
      → Sound tokens inp p
      → Held p.events ks
      → Ends tokens inp p.steps ks (λ new_pos. below new_pos ∷ []) (outcome (Impl.precede pos p))
  unfolding Impl.precede Impl.start Impl.pure Impl.◌>>=◌ Impl.push_event
  Ends-precede_at pos p ks none e here s held = rw e tt
  Ends-precede_at pos p ks (some (start kind fp)) e here s held =
      let es = p.events ++ Event.tombstone ∷ [] in
      let count : length es ≡ length p.events + 1 =
        omega (arith, length-append p.events (Event.tombstone ∷ [])) in
      let distance = length p.events - pos in
      let framed : Frames p.events (set es pos (start kind (some distance))) =
        Frames-set p.events es pos kind (some distance)
          (Frames-push p.events Event.tombstone (λ k d t. cc t)) (omega (arith, here, count))
          (λ k d h n same hit.
            let far : distance ≡ d = cc same in absurd (omega (arith, h, far, hit, here))) in
      rw e (
        Sound-Step tokens inp (by_precede pos (length p.events) here (rw e refl)) s.bounded s,
        (
          omega (arith, count, length-set es pos (start kind (some distance))),
          Held-Frames framed ks held,
        ),
        omega arith,
      )
  Ends-precede_at pos p ks (some finish) e here s held = rw e tt
  Ends-precede_at pos p ks (some (token k n)) e here s held = rw e tt
  Ends-precede_at pos p ks (some (error msg)) e here s held = rw e tt

  -- ParserImpl::precede, of a marker of an earlier event.
  pub Ends-precede :
      (pos : ℕ) (p : ParserImpl) (ks : List Fact)
      → pos < length p.events
      → Sound tokens inp p
      → Held p.events ks
      → Ends tokens inp p.steps ks (λ new_pos. below new_pos ∷ []) (outcome (Impl.precede pos p))
  Ends-precede pos p ks here s held = Ends-precede_at pos p ks _ refl here s held
