-- ===== src/Parser/Steps/Takes.antt =====
-- The tokens that events take (crates/ra_syntax/src/parser_impl.rs), and what the grammar sees of them.
use rust_analyzer.Base.{
  ℕ, zero, suc, ◌+◌, ◌≤◌, ◌≡◌, refl, ◌∙◌, sym, ap, List, [], ◌∷◌, ◌++◌, Option, some, arith, length,
  drop, get_elem?, set, map, if◌then◌else◌, true, false, append_assoc, append-nil, subst, Bool,
}
use rust_analyzer.SyntaxKind.{SyntaxKind, is_trivia}
use rust_analyzer.Lexer.Tokenize.{Token}
use rust_analyzer.Parser.Event
use rust_analyzer.Parser.Event.{Event, start, finish, token, error}
use rust_analyzer.Parser.Input
use rust_analyzer.Parser.Input.{ParserInput, collect}
use rust_analyzer.Parser.Process.Trivia.{skip_trivias}
use rust_analyzer.Parser.Process.Links.{shape}
use rust_analyzer.Parser.Process.Step.{Feeds}

-- The token events take the tokens up to `rest`, with the trivia after each.
unfoldable pub Takes : List Event → List Token → List Token → Type 0
Takes [] solid rest = solid ≡ rest
Takes (token kind n ∷ events) solid rest =
    (n ≤ length solid) × Takes events (skip_trivias (drop n solid)) rest
Takes (start kind forward_parent ∷ events) solid rest = Takes events solid rest
Takes (finish ∷ events) solid rest = Takes events solid rest
Takes (error msg ∷ events) solid rest = Takes events solid rest

pub Takes-Feeds :
    (events : List Event) (solid : List Token)
    → Takes events solid []
    → Feeds (map shape events) solid
unfolding Takes Feeds shape
Takes-Feeds [] solid t = t
Takes-Feeds (token kind n ∷ events) solid t = (t.0, Takes-Feeds events _ t.1)
Takes-Feeds (start kind forward_parent ∷ events) solid t = Takes-Feeds events solid t
Takes-Feeds (finish ∷ events) solid t = Takes-Feeds events solid t
Takes-Feeds (error msg ∷ events) solid t = Takes-Feeds events solid t

pub Takes-append :
    (es fs : List Event) (solid mid rest : List Token)
    → Takes es solid mid
    → Takes fs mid rest
    → Takes (es ++ fs) solid rest
unfolding Takes
Takes-append [] fs solid mid rest t u = subst (λ s. Takes fs s rest) (sym t) u
Takes-append (token kind n ∷ es) fs solid mid rest t u = (t.0, Takes-append es fs _ mid rest t.1 u)
Takes-append (start kind forward_parent ∷ es) fs solid mid rest t u =
    Takes-append es fs solid mid rest t u
Takes-append (finish ∷ es) fs solid mid rest t u = Takes-append es fs solid mid rest t u
Takes-append (error msg ∷ es) fs solid mid rest t u = Takes-append es fs solid mid rest t u

-- A start at the end takes nothing.
pub Takes-init :
    (es : List Event) (solid rest : List Token)
    → Takes (es ++ Event.tombstone ∷ []) solid rest
    → Takes es solid rest
unfolding Takes
Takes-init [] solid rest t = t
Takes-init (token kind n ∷ es) solid rest t = (t.0, Takes-init es _ rest t.1)
Takes-init (start kind forward_parent ∷ es) solid rest t = Takes-init es solid rest t
Takes-init (finish ∷ es) solid rest t = Takes-init es solid rest t
Takes-init (error msg ∷ es) solid rest t = Takes-init es solid rest t

-- Nor does a start in place of a start.
pub Takes-put :
    (es : List Event) (pos : ℕ) (slot kind : SyntaxKind) (old forward_parent : Option ℕ)
    (solid rest : List Token)
    → get_elem? es pos ≡ some (start slot old)
    → Takes es solid rest
    → Takes (set es pos (start kind forward_parent)) solid rest
unfolding Takes
Takes-put [] pos slot kind old forward_parent solid rest h t = cc
Takes-put (start k f ∷ es) zero slot kind old forward_parent solid rest h t = t
Takes-put (token k n ∷ es) zero slot kind old forward_parent solid rest h t = cc
Takes-put (finish ∷ es) zero slot kind old forward_parent solid rest h t = cc
Takes-put (error msg ∷ es) zero slot kind old forward_parent solid rest h t = cc
Takes-put (token k n ∷ es) (suc pos) slot kind old forward_parent solid rest h t =
    (t.0, Takes-put es pos slot kind old forward_parent _ rest h t.1)
Takes-put (start k f ∷ es) (suc pos) slot kind old forward_parent solid rest h t =
    Takes-put es pos slot kind old forward_parent solid rest h t
Takes-put (finish ∷ es) (suc pos) slot kind old forward_parent solid rest h t =
    Takes-put es pos slot kind old forward_parent solid rest h t
Takes-put (error msg ∷ es) (suc pos) slot kind old forward_parent solid rest h t =
    Takes-put es pos slot kind old forward_parent solid rest h t

-- The tokens that are no trivia.
unfoldable pub solids : List Token → List Token
solids [] = []
solids (t ∷ ts) = let rest = solids ts in if is_trivia t.kind then rest else t ∷ rest

pub solids-skip_trivias : (ts : List Token) → solids (skip_trivias ts) ≡ solids ts
unfolding solids skip_trivias
solids-skip_trivias [] = refl
solids-skip_trivias (t ∷ ts) = ground (arith, solids-skip_trivias ts)

kept :
    (b : Bool) (t : Token) (inp more : ParserInput) (ts : List Token)
    → more.tokens ≡ inp.tokens ++ t ∷ []
    → (if b then inp else more).tokens ++ ts ≡ inp.tokens ++ (if b then ts else t ∷ ts)
kept true t inp more ts e = refl
kept false t inp more ts e = rw e (append_assoc inp.tokens (t ∷ []) ts)

-- `ParserInput::new` keeps just these.
collect-solids :
    (raw : List Token) (len : ℕ) (inp : ParserInput)
    → (collect raw len inp).tokens ≡ inp.tokens ++ solids raw
unfolding collect solids
collect-solids [] len inp = sym (append-nil inp.tokens)
collect-solids (t ∷ raw) len inp =
    collect-solids raw (len + t.len) _ ∙ kept (is_trivia t.kind) t inp _ (solids raw) refl

pub new-solids : (text : List ℕ) (raw : List Token) → (Input.new text raw).tokens ≡ solids raw
unfolding Input.new
new-solids text raw = collect-solids raw 0 _

-- The next token that the grammar sees is the first of those left.
pub record Next (t : Token) (later rest : List Token) : Type 0 where
  pub behind : List Token
  pub splits : rest ≡ t ∷ behind
  pub later_ones : later ≡ solids behind

pub length-skip_trivias : (ts : List Token) → length (skip_trivias ts) ≤ length ts
unfolding skip_trivias
length-skip_trivias [] = omega arith
length-skip_trivias (t ∷ ts) = ground (arith, length-skip_trivias ts)

head_of_solids :
    (b : Bool) (r t : Token) (rest later : List Token)
    → (if b then skip_trivias rest else r ∷ rest) ≡ r ∷ rest
    → (if b then solids rest else r ∷ solids rest) ≡ t ∷ later
    → Next t later (r ∷ rest)
head_of_solids true r t rest later clean e =
    absurd (omega (arith, ap length clean, length-skip_trivias rest))
head_of_solids false r t rest later clean e = record {
  behind = rest;
  splits = cc e;
  later_ones = cc e;
}

no_head :
    (b : Bool) (r : Token) (rest : List Token)
    → (if b then skip_trivias rest else r ∷ rest) ≡ r ∷ rest
    → (if b then solids rest else r ∷ solids rest) ≡ []
    → r ∷ rest ≡ []
no_head true r rest clean e = absurd (omega (arith, ap length clean, length-skip_trivias rest))
no_head false r rest clean e = cc

pub Next-solids :
    (rest later : List Token) (t : Token)
    → skip_trivias rest ≡ rest
    → solids rest ≡ t ∷ later
    → Next t later rest
unfolding solids skip_trivias
Next-solids [] later t clean e = cc
Next-solids (r ∷ rest) later t clean e = head_of_solids (is_trivia r.kind) r t rest later clean e

pub solids-nil : (rest : List Token) → skip_trivias rest ≡ rest → solids rest ≡ [] → rest ≡ []
unfolding solids skip_trivias
solids-nil [] clean e = refl
solids-nil (r ∷ rest) clean e = no_head (is_trivia r.kind) r rest clean e
