-- ===== src/Parser/Process/Trivia.antt =====
-- Eating whitespace and comments (crates/ra_syntax/src/parser_impl/event.rs).
use rust_analyzer.Base.{
  ℕ, ◌≡◌, refl, true, List, [], ◌∷◌, ◌++◌, arith, if◌then◌else◌, length, get_elem?-drop, Bool-cases,
  inl, inr,
}
use rust_analyzer.SyntaxKind.{is_trivia}
use rust_analyzer.Lexer.Tokenize.{Token}
use rust_analyzer.Parser.Process
use rust_analyzer.Parser.Process.{
  Processor, take_trivias, eat_trivias_from, eat_trivias, eat_n_trivias,
}
use rust_analyzer.Parser.Process.Cursor.{At, Reaches, Reaches-bind, Reaches-here, Reaches-one}

-- The tokens from the first that is no trivia on.
unfoldable pub skip_trivias : List Token → List Token
skip_trivias [] = []
skip_trivias (token ∷ tokens) =
    let rest = skip_trivias tokens in if is_trivia token.kind then rest else token ∷ tokens

abbrev pub AllTrivia : List Token → Type 0
AllTrivia [] = Unit {0}
AllTrivia (token ∷ tokens) = (is_trivia token.kind ≡ true) × AllTrivia tokens

pub take-append-skip : (ts : List Token) → take_trivias ts ++ skip_trivias ts ≡ ts
unfolding take_trivias skip_trivias
take-append-skip [] = refl
take-append-skip (t ∷ ts) = ground (arith, take-append-skip ts)

pub AllTrivia-take_trivias : (ts : List Token) → AllTrivia (take_trivias ts)
unfolding take_trivias
AllTrivia-take_trivias [] = tt
AllTrivia-take_trivias (t ∷ ts) = elim (Bool-cases (is_trivia t.kind)) [
  | inl e ↦ rw e (e, AllTrivia-take_trivias ts)
  | inr e ↦ rw e tt
]

-- Skipping is idempotent.
pub skip_trivias_idem : (ts : List Token) → skip_trivias (skip_trivias ts) ≡ skip_trivias ts
unfolding skip_trivias
skip_trivias_idem [] = refl
skip_trivias_idem (t ∷ ts) = ground (arith, skip_trivias_idem ts)

module _ (text : List ℕ) (tokens : List Token) where
  pub Reaches-eat_trivias_from :
      (left : List Token) (p : Processor)
      → At text tokens left p
      → Reaches text tokens (skip_trivias left) (eat_trivias_from text tokens left p)
  unfolding eat_trivias_from skip_trivias
  Reaches-eat_trivias_from [] p a = Reaches-here text tokens p a
  Reaches-eat_trivias_from (t ∷ ts) p a = elim (Bool-cases (is_trivia t.kind)) [
    | inl e ↦ rw e (
        Reaches-bind text tokens (Process.leaf text tokens t.kind t.len 1 p)
          (eat_trivias_from text tokens ts) (Reaches-one text tokens t ts p a)
          (Reaches-eat_trivias_from ts))
    | inr e ↦ rw e (Reaches-here text tokens p a)
  ]

  pub Reaches-eat_trivias :
      (left : List Token) (p : Processor)
      → At text tokens left p
      → Reaches text tokens (skip_trivias left) (eat_trivias text tokens p)
  unfolding eat_trivias
  Reaches-eat_trivias left p a = rw a.tokens_left (Reaches-eat_trivias_from left p a)

  pub Reaches-eat_n_trivias :
      (us vs : List Token) (p : Processor)
      → AllTrivia us
      → At text tokens (us ++ vs) p
      → Reaches text tokens vs (eat_n_trivias text tokens (length us) p)
  unfolding eat_n_trivias
  Reaches-eat_n_trivias [] vs p h a = Reaches-here text tokens p a
  Reaches-eat_n_trivias (u ∷ us) vs p h a =
      rw (get_elem?-drop p.token_pos tokens u (us ++ vs) a.tokens_left, h.0)
        (Reaches-bind text tokens (Process.leaf text tokens u.kind u.len 1 p)
          (eat_n_trivias text tokens (length us)) (Reaches-one text tokens u (us ++ vs) p a)
          (λ q b. Reaches-eat_n_trivias us vs q h.1 b))
