-- ===== src/Parser/Steps/Aligned.antt =====
-- The place of the grammar among the raw tokens, and tokens that touch one another
-- (crates/ra_syntax/src/parser_impl.rs and parser_impl/input.rs).
use rust_analyzer.Base.{
  ℕ, ◌+◌, ◌<◌, ◌≡◌, refl, ◌∙◌, sym, List, [], ◌∷◌, ◌++◌, arith, drop, if◌then◌else◌, true, false,
  Bool, append_assoc, append-nil,
}
use rust_analyzer.SyntaxKind.{is_trivia}
use rust_analyzer.Lexer.Tokenize.{Token}
use rust_analyzer.Parser.Input
use rust_analyzer.Parser.Input.{ParserInput, collect, or_zero, len_or_zero}
use rust_analyzer.Parser.Process.Trivia.{skip_trivias, skip_trivias_idem}
use rust_analyzer.Parser.Steps.Takes.{solids, solids-skip_trivias, new-solids}

-- Where the tokens that are no trivia start, the first token being at `o`.
unfoldable pub offsets : ℕ → List Token → List ℕ
offsets o [] = []
offsets o (t ∷ ts) =
    let rest = offsets (o + t.len) ts in if is_trivia t.kind then rest else o ∷ rest

unfoldable pub skipped : ℕ → List Token → ℕ
skipped o [] = o
skipped o (t ∷ ts) = let rest = skipped (o + t.len) ts in if is_trivia t.kind then rest else o

offsets-skip_trivias :
    (o : ℕ) (ts : List Token) → offsets (skipped o ts) (skip_trivias ts) ≡ offsets o ts
unfolding offsets skipped skip_trivias
offsets-skip_trivias o [] = refl
offsets-skip_trivias o (t ∷ ts) = ground (arith, offsets-skip_trivias (o + t.len) ts)

kept_offsets :
    (b : Bool) (o : ℕ) (inp more : ParserInput) (os : List ℕ)
    → more.start_offsets ≡ inp.start_offsets ++ o ∷ []
    → (if b then inp else more).start_offsets ++ os
      ≡ inp.start_offsets ++ (if b then os else o ∷ os)
kept_offsets true o inp more os e = refl
kept_offsets false o inp more os e = rw e (append_assoc inp.start_offsets (o ∷ []) os)

collect-offsets :
    (raw : List Token) (len : ℕ) (inp : ParserInput)
    → (collect raw len inp).start_offsets ≡ inp.start_offsets ++ offsets len raw
unfolding collect offsets
collect-offsets [] len inp = sym (append-nil inp.start_offsets)
collect-offsets (t ∷ raw) len inp =
    collect-offsets raw (len + t.len) _
    ∙ kept_offsets (is_trivia t.kind) len inp _ (offsets (len + t.len) raw) refl

abbrev pub AllPos : List Token → Type 0
AllPos [] = Unit {0}
AllPos (t ∷ ts) = (0 < t.len) × AllPos ts

AllPos-if : (b : Bool) (x y : List Token) → AllPos x → AllPos y → AllPos (if b then x else y)
AllPos-if true x y hx hy = hx
AllPos-if false x y hx hy = hy

AllPos-skip_trivias : (ts : List Token) → AllPos ts → AllPos (skip_trivias ts)
unfolding skip_trivias
AllPos-skip_trivias [] h = tt
AllPos-skip_trivias (t ∷ ts) h =
    AllPos-if (is_trivia t.kind) (skip_trivias ts) (t ∷ ts) (AllPos-skip_trivias ts h.1) h

-- The raw tokens from the current one on, which the grammar sees from `pos` on.
pub record Aligned (inp : ParserInput) (rest : List Token) (pos : ℕ) : Type 0 where
  pub clean : skip_trivias rest ≡ rest
  pub ahead : solids rest ≡ drop pos inp.tokens
  pub from : ℕ
  pub starts : offsets from rest ≡ drop pos inp.start_offsets
  pub positive : AllPos rest

-- The same, with trivia that may still stand first.
pub record Behind (inp : ParserInput) (rest : List Token) (pos : ℕ) : Type 0 where
  pub ahead : solids rest ≡ drop pos inp.tokens
  pub from : ℕ
  pub starts : offsets from rest ≡ drop pos inp.start_offsets
  pub positive : AllPos rest

pub Aligned-skip_trivias :
    (inp : ParserInput) (rest : List Token) (pos : ℕ)
    → Behind inp rest pos
    → Aligned inp (skip_trivias rest) pos
Aligned-skip_trivias inp rest pos b = record {
  clean = skip_trivias_idem rest;
  ahead = solids-skip_trivias rest ∙ b.ahead;
  from = skipped b.from rest;
  starts = offsets-skip_trivias b.from rest ∙ b.starts;
  positive = AllPos-skip_trivias rest b.positive;
}

pub Aligned-new :
    (text : List ℕ) (tokens : List Token)
    → AllPos tokens
    → Aligned (Input.new text tokens) (skip_trivias tokens) 0
unfolding Input.new
Aligned-new text tokens h = Aligned-skip_trivias (Input.new text tokens) tokens 0 (record {
  ahead = sym (new-solids text tokens);
  from = 0;
  starts = sym (collect-offsets tokens 0 _);
  positive = h;
})
