-- ===== src/Parser/Steps/Compounds.antt =====
-- `next2` and `next3` of crates/ra_syntax/src/parser_impl.rs, by which the grammar sees whether tokens
-- can be taken together.
use rust_analyzer.Base.{
  ℕ, zero, suc, ◌≡◌, refl, Option, none, some, arith, if◌then◌else◌, true, false, Bool, ◌&&◌,
}
use rust_analyzer.SyntaxKind.{SyntaxKind}
use rust_analyzer.Parser.Input.{ParserInput}
use rust_analyzer.Parser.Impl.{ParserImpl, next2, next3, joined}
use rust_analyzer.Parser.Steps.{Touching}

found_if :
    {A : Type 0} (b : Bool) (x a : A) (p q : ParserImpl)
    → ◌≡◌ {A = Option (Option A × ParserImpl)}
        (some (if b then some x else none, p))
        (some (some a, q))
    → b ≡ true
found_if true x a p q e = refl
found_if false x a p q e = cc e

both : (a b : Bool) → (a && b) ≡ true → (a ≡ true) × (b ≡ true)
both true true e = (refl, refl)
both true false e = cc e
both false b e = cc e

Touching-two : (inp : ParserInput) (pos : ℕ) → joined inp pos 0 ≡ true → Touching inp pos 2
Touching-two inp pos h zero below = h
Touching-two inp pos h (suc i) below = absurd (omega (arith, below))

Touching-three :
    (inp : ParserInput) (pos : ℕ)
    → joined inp pos 0 ≡ true
    → joined inp pos 1 ≡ true
    → Touching inp pos 3
Touching-three inp pos h k zero below = h
Touching-three inp pos h k (suc zero) below = k
Touching-three inp pos h k (suc (suc i)) below = absurd (omega (arith, below))

-- If `next2` gives two kinds, the current token and the next one touch.
pub next2-Touching :
    (inp : ParserInput) (p q : ParserImpl) (kinds : SyntaxKind × SyntaxKind)
    → next2 inp p ≡ some (some kinds, q)
    → Touching inp p.pos 2
unfolding next2
next2-Touching inp p q kinds e =
    Touching-two inp p.pos (found_if (joined inp p.pos 0) _ kinds p q e)

-- If `next3` gives three kinds, the current token and the next two touch one another.
pub next3-Touching :
    (inp : ParserInput) (p q : ParserImpl) (kinds : SyntaxKind × SyntaxKind × SyntaxKind)
    → next3 inp p ≡ some (some kinds, q)
    → Touching inp p.pos 3
unfolding next3
next3-Touching inp p q kinds e =
    let (h, k) =
      both (joined inp p.pos 0) (joined inp p.pos 1)
        (found_if (joined inp p.pos 0 && joined inp p.pos 1) _ kinds p q e) in
    Touching-three inp p.pos h k
