-- ===== src/Parser/Steps/Bumps.antt =====
-- The bumps of crates/ra_syntax/src/parser_impl.rs keep the events and tokens in step.
use rust_analyzer.Base.{
  ℕ, suc, ◌+◌, ◌≤◌, ◌≡◌, refl, ◌∙◌, sym, List, [], ◌∷◌, ◌++◌, some, arith, length, drop, get_elem?,
  if◌then◌else◌, true, false, Bool, Bool-cases, Option-cases, inl, inr, subst, leb, ◌==◌, drop-suc,
}
use rust_analyzer.SyntaxKind
use rust_analyzer.SyntaxKind.{SyntaxKind}
use rust_analyzer.Lexer.Tokenize.{Token}
use rust_analyzer.Parser.Event.{token}
use rust_analyzer.Parser.Input
use rust_analyzer.Parser.Input.{ParserInput}
use rust_analyzer.Parser.Impl
use rust_analyzer.Parser.Impl.{Parse, ◌>>=◌, ParserImpl, do_bump, push_event}
use rust_analyzer.Parser.Process.Trivia.{skip_trivias}
use rust_analyzer.Parser.Steps.{Touching}
use rust_analyzer.Parser.Steps.Aligned.{Aligned}
use rust_analyzer.Parser.Steps.Joined.{Aligned-compound}
use rust_analyzer.Parser.Steps.Links.{IsLinked-push}
use rust_analyzer.Parser.Steps.Takes.{Takes, Takes-append, Next-solids}
use rust_analyzer.Parser.Steps.Fit.{Fit, Fit-steps, Keeps}

module _ (tokens : List Token) (inp : ParserInput) where
  -- Taking the current token, and those that touch it.
  Fit-take :
      (p : ParserImpl) (kind : SyntaxKind) (n : ℕ) (t : Token)
      → get_elem? inp.tokens p.pos ≡ some t
      → Touching inp p.pos (suc n)
      → Fit tokens inp p
      → Fit tokens inp
          (record p { pos = p.pos + suc n; events = p.events ++ token kind (suc n) ∷ [] })
  unfolding Takes
  Fit-take p kind n t here touching f =
      let next =
        Next-solids f.rest (drop (suc p.pos) inp.tokens) t f.aligned.clean
          (f.aligned.ahead ∙ drop-suc p.pos inp.tokens t here) in
      let taken =
        Aligned-compound inp n t next.behind p.pos
          (subst (λ r. Aligned inp r p.pos) next.splits f.aligned) touching in
      let left = skip_trivias (drop n next.behind) in
      record {
        linked = IsLinked-push p.events (token kind (suc n)) (λ k g e. cc e) f.linked;
        rest = left;
        takes = Takes-append p.events (token kind (suc n) ∷ []) _ f.rest _ f.takes (
            subst (λ r. (suc n ≤ length r) × (skip_trivias (drop (suc n) r) ≡ left))
              (sym next.splits) (omega (arith, taken.0), refl));
        aligned = taken.1;
      }

  -- The current token is there if its kind is not that of the end.
  Keeps-do_bump :
      (kind : SyntaxKind) (p : ParserImpl)
      → (Input.kind inp p.pos == SyntaxKind.eof) ≡ false
      → Fit tokens inp p
      → Keeps tokens inp (Impl.do_bump kind 1 p)
  unfolding Impl.do_bump Input.kind
  Keeps-do_bump kind p some_left f = elim (Option-cases (get_elem? inp.tokens p.pos)) [
    | inl e ↦ absurd (cc (some_left, e))
    | inr (t, e) ↦ Fit-take p kind 0 t e (λ i below. absurd (omega (arith, below))) f
  ]

  pub Keeps-bump_compound :
      (kind : SyntaxKind) (n : ℕ) (t : Token) (p : ParserImpl)
      → get_elem? inp.tokens p.pos ≡ some t
      → Touching inp p.pos (suc n)
      → Fit tokens inp p
      → Keeps tokens inp (Impl.bump_compound kind (suc n) p)
  unfolding Impl.bump_compound
  Keeps-bump_compound kind n t p here touching f = Fit-take p kind n t here touching f

  Keeps-choice :
      {A : Type 0} (b : Bool) (m n : Parse A) (p : ParserImpl)
      → Keeps tokens inp (m p)
      → (b ≡ false → Keeps tokens inp (n p))
      → Keeps tokens inp ((if b then m else n) p)
  Keeps-choice true m n p hm hn = hm
  Keeps-choice false m n p hm hn = hn refl

  -- Both bumps, which give the token their own kind.
  Keeps-bump_as :
      (as_kind : SyntaxKind → SyntaxKind) (p : ParserImpl)
      → Fit tokens inp p
      → Keeps tokens inp (
          (Impl.nth inp 0 >>= λ c.
          if c == SyntaxKind.eof then Impl.pure tt else do_bump (as_kind c) 1)
            p)
  unfolding Impl.nth Impl.pure Impl.◌>>=◌
  Keeps-bump_as as_kind p f = elim (Bool-cases (leb p.steps Impl.max_steps)) [
    | inl e ↦ rw e (
        Keeps-choice (Input.kind inp (p.pos + 0) == SyntaxKind.eof) (Impl.pure tt)
          (do_bump (as_kind (Input.kind inp (p.pos + 0))) 1) _
          (Fit-steps tokens inp p (p.steps + 1) f)
          λ some_left.
            Keeps-do_bump _ _
              (subst (λ k. (Input.kind inp k == SyntaxKind.eof) ≡ false) {x = p.pos + 0} {y = p.pos}
                (omega arith) some_left)
              (Fit-steps tokens inp p (p.steps + 1) f))
    | inr e ↦ rw e tt
  ]

  pub Keeps-bump : (p : ParserImpl) → Fit tokens inp p → Keeps tokens inp (Impl.bump inp p)
  unfolding Impl.bump
  Keeps-bump p f = Keeps-bump_as (λ c. c) p f

  pub Keeps-bump_remap :
      (kind : SyntaxKind) (p : ParserImpl)
      → Fit tokens inp p
      → Keeps tokens inp (Impl.bump_remap inp kind p)
  unfolding Impl.bump_remap
  Keeps-bump_remap kind p f = Keeps-bump_as (λ c. kind) p f
