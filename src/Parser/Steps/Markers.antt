-- ===== src/Parser/Steps/Markers.antt =====
-- Completing, preceding and abandoning markers (crates/ra_syntax/src/parser_impl.rs) keep the events
-- and tokens in step.
use rust_analyzer.Base.{
  ℕ, zero, suc, ◌+◌, ◌-◌, ◌≤◌, ◌<◌, ◌≡◌, refl, ◌∙◌, sym, ap, List, [], ◌∷◌, ◌++◌, Option, none,
  some, arith, length, drop, take, get_elem?, set, if◌then◌else◌, true, false, Bool, Bool-cases,
  Option-cases, inl, inr, subst, leb, ◌==◌, drop-suc, length-take, ==_iff, lt_of_get_elem?,
  get_elem?-append_length, get_elem?-append_left,
}
use rust_analyzer.Base
use rust_analyzer.SyntaxKind
use rust_analyzer.SyntaxKind.{SyntaxKind}
use rust_analyzer.Lexer.Tokenize.{Token}
use rust_analyzer.Parser.Event
use rust_analyzer.Parser.Event.{Event, start, finish, token, error}
use rust_analyzer.Parser.Input.{ParserInput}
use rust_analyzer.Parser.Impl
use rust_analyzer.Parser.Impl.{Parse, ◌>>=◌, ParserImpl, do_bump, push_event}
use rust_analyzer.Parser.Process.Trivia.{skip_trivias}
use rust_analyzer.Parser.Process.Links.{LinksTo, IsLinked}
use rust_analyzer.Parser.Steps.{NoChild}
use rust_analyzer.Parser.Steps.Links.{IsLinked-put, IsLinked-init}
use rust_analyzer.Parser.Steps.Takes.{Takes, Takes-init, Takes-put}
use rust_analyzer.Parser.Steps.Fit.{Fit, Fit-push, Keeps}

module _ (tokens : List Token) (inp : ParserInput) where
  Fit-put :
      (p : ParserImpl) (pos : ℕ) (slot kind : SyntaxKind) (old forward_parent : Option ℕ)
      → get_elem? p.events pos ≡ some (start slot old)
      → LinksTo p.events pos forward_parent
      → Fit tokens inp p
      → Fit tokens inp (record p { events = set p.events pos (start kind forward_parent) })
  Fit-put p pos slot kind old forward_parent here to f = record {
    linked =
        IsLinked-put p.events pos kind forward_parent (lt_of_get_elem? p.events pos _ here) to
          f.linked;
    rest = f.rest;
    takes = Takes-put p.events pos slot kind old forward_parent _ f.rest here f.takes;
    aligned = f.aligned;
  }

  Keeps-complete_at :
      (pos : ℕ) (kind : SyntaxKind) (p : ParserImpl) (o : Option Event)
      → get_elem? p.events pos ≡ o
      → Fit tokens inp p
      → Keeps tokens inp (
          Base.◌>>=◌
            (Impl.set_kind kind o)
            λ event. push_event finish (record p { events = set p.events pos event }))
  unfolding push_event Takes
  Keeps-complete_at pos kind p none e f = tt
  Keeps-complete_at pos kind p (some (start slot fp)) e f =
      Fit-push tokens inp _ finish (λ k g e. cc e) (λ s. refl)
        (Fit-put p pos slot kind fp fp e (f.linked.links pos slot fp e) f)
  Keeps-complete_at pos kind p (some finish) e f = tt
  Keeps-complete_at pos kind p (some (token k n)) e f = tt
  Keeps-complete_at pos kind p (some (error msg)) e f = tt

  pub Keeps-complete :
      (pos : ℕ) (kind : SyntaxKind) (p : ParserImpl)
      → Fit tokens inp p
      → Keeps tokens inp (Impl.complete pos kind p)
  unfolding Impl.complete
  Keeps-complete pos kind p f = Keeps-complete_at pos kind p _ refl f

  -- The new event is the forward parent of an earlier one.
  Keeps-link_at :
      (pos : ℕ) (p : ParserImpl) (o : Option Event)
      → pos < length p.events
      → get_elem? (p.events ++ Event.tombstone ∷ []) pos ≡ o
      → Fit tokens inp p
      → Keeps tokens inp (
          Base.◌>>=◌ {A = Unit {0} × ParserImpl}
            (Base.◌>>=◌ (Impl.set_forward_parent (length p.events - pos) o) λ event.
              some (tt, record p { events = set (p.events ++ Event.tombstone ∷ []) pos event }))
            (λ r. some (length p.events, r.1)))
  unfolding Takes
  Keeps-link_at pos p none below e f = tt
  Keeps-link_at pos p (some (start kind fp)) below e f =
      let events = p.events ++ Event.tombstone ∷ [] in
      let last : get_elem? events (pos + (length p.events - pos)) ≡ some Event.tombstone =
        ap (get_elem? events) {x = pos + (length p.events - pos)} {y = length p.events}
          (omega arith)
        ∙ get_elem?-append_length p.events [] Event.tombstone in
      Fit-put _ pos kind kind fp (some (length p.events - pos)) e
        (
          omega arith,
          record { kind = SyntaxKind.tombstone; forward_parent = none; is_start = last },
        )
        (Fit-push tokens inp p Event.tombstone (λ k g e. cc e) (λ s. refl) f)
  Keeps-link_at pos p (some finish) below e f = tt
  Keeps-link_at pos p (some (token k n)) below e f = tt
  Keeps-link_at pos p (some (error msg)) below e f = tt

  pub Keeps-precede :
      (pos : ℕ) (p : ParserImpl)
      → pos < length p.events
      → Fit tokens inp p
      → Keeps tokens inp (Impl.precede pos p)
  unfolding Impl.precede Impl.start Impl.pure Impl.◌>>=◌ push_event
  Keeps-precede pos p below f = Keeps-link_at pos p _ below refl f

  -- The last event is dropped.
  Fit-init :
      (p : ParserImpl) (es : List Event)
      → p.events ≡ es ++ Event.tombstone ∷ []
      → NoChild p.events (length es)
      → Fit tokens inp p
      → Fit tokens inp (record p { events = es })
  Fit-init p es e alone f = record {
    linked =
        IsLinked-init es Event.tombstone (subst (λ l. NoChild l (length es)) e alone)
          (subst IsLinked e f.linked);
    rest = f.rest;
    takes = Takes-init es _ f.rest (subst (λ l. Takes l (skip_trivias tokens) f.rest) e f.takes);
    aligned = f.aligned;
  }

  tombstone_of : (o : Option Event) → Impl.is_tombstone o ≡ true → o ≡ some Event.tombstone
  tombstone_of none e = cc
  tombstone_of (some (start kind none)) e = rw ((==_iff kind SyntaxKind.tombstone).0 e)
  tombstone_of (some (start kind (some d))) e = cc
  tombstone_of (some finish) e = cc
  tombstone_of (some (token k n)) e = cc
  tombstone_of (some (error msg)) e = cc

  split_last :
      (es : List Event) (pos : ℕ) (e : Event)
      → pos + 1 ≡ length es
      → get_elem? es pos ≡ some e
      → es ≡ take pos es ++ e ∷ []
  split_last [] pos e count h = cc
  split_last (x ∷ []) zero e count h = ap (λ y. y ∷ []) cc
  split_last (x ∷ y ∷ es) zero e count h = absurd (omega arith)
  split_last (x ∷ es) (suc pos) e count h = ap (λ l. x ∷ l) (split_last es pos e (omega arith) h)

  pub Keeps-abandon :
      (pos : ℕ) (p : ParserImpl)
      → NoChild p.events pos
      → Fit tokens inp p
      → Keeps tokens inp (Impl.abandon pos p)
  unfolding Impl.abandon
  Keeps-abandon pos p alone f = elim (Bool-cases (pos + 1 == length p.events)) [
    | inl last ↦ rw last (elim (Bool-cases (Impl.is_tombstone (get_elem? p.events pos))) [
      | inl tomb ↦
          let here = tombstone_of (get_elem? p.events pos) tomb in
          let count : pos + 1 ≡ length p.events = (==_iff (pos + 1) (length p.events)).0 last in
          rw tomb (
            Fit-init p (take pos p.events) (split_last p.events pos Event.tombstone count here)
              (subst (NoChild p.events) (sym (length-take pos p.events (omega (arith, count))))
                alone)
              f)
      | inr other ↦ rw other tt
    ])
    | inr inner ↦ rw inner f
  ]
