-- ===== src/Grammar/Lossless.antt =====
-- The grammar as a whole, from crates/ra_syntax/src/grammar.rs: it comes to an end, and loses no text.
use rust_analyzer.Base.{
  ℕ, ◌≡◌, ◌≢◌, refl, sym, ◌∙◌, ap, subst, List, [], ◌∷◌, ◌++◌, Option, none, some, arith, false,
  map, set, get_elem?,
}
use rust_analyzer.SyntaxKind
use rust_analyzer.SyntaxKind.{SyntaxKind}
use rust_analyzer.Lexer.Classes.{UnicodeXid}
use rust_analyzer.Lexer.Tokenize.{Token, tokenize}
use rust_analyzer.Parser.Api
use rust_analyzer.Parser.Api.{Marker}
use rust_analyzer.Parser.Event.{Event, start, finish, token, error}
use rust_analyzer.Parser.Input
use rust_analyzer.Parser.Input.{ParserInput}
use rust_analyzer.Parser.Impl
use rust_analyzer.Parser.Impl.{ParserImpl, into_events}
use rust_analyzer.Parser.Process.Links.{shape}
use rust_analyzer.Parser.Process.Step.{EndsInFinish}
use rust_analyzer.Parser.Process.Lossless.{BuildsText}
use rust_analyzer.Parser.ParseWith.{parse_with}
use rust_analyzer.Parser.Steps.{Run, done}
use rust_analyzer.Parser.Steps.Builds.{Fit-new, AllPos-tokenize, parse_with-Run, AtEnd-into_events}
use rust_analyzer.Parser.Steps.Aligned.{AllPos}
use rust_analyzer.Grammar.Monad.{Outcome, returns, panics, spent, Gram, lift, go_on, pure, ◌>>=◌}
use rust_analyzer.Grammar.Ops
use rust_analyzer.Grammar.Ops.{complete, eat}
use rust_analyzer.Grammar.Entries.{Grammar}
use rust_analyzer.Grammar.Contents.{root, mod_contents}
use rust_analyzer.Grammar.Knot.{grammar, enough, result, parse_root}
use rust_analyzer.Grammar.Keeps.Rules.{Sound, Ends, nothing}
use rust_analyzer.Grammar.Keeps.Contents.{Call-root}
use rust_analyzer.Grammar.Keeps.Knot.{Calls-grammar, fuel_of_grammar}

-- A computation that returns leaves a finish as the last event.
abbrev LastFinish : {A : Type 0} → Outcome A → Type 0
LastFinish (returns a q) = (es : List Event) × (q.events ≡ es ++ finish ∷ [])
LastFinish panics = Unit {0}
LastFinish spent = Unit {0}

LastFinish-go_on :
    {A B : Type 0} (o : Outcome A) (f : A → ParserImpl → Outcome B)
    → ((a : A) (q : ParserImpl) → LastFinish (f a q))
    → LastFinish (go_on f o)
LastFinish-go_on (returns a q) f h = h a q
LastFinish-go_on panics f h = tt
LastFinish-go_on spent f h = tt

LastFinish-complete :
    (m : Marker) (kind : SyntaxKind) (inp : ParserInput) (p : ParserImpl) (o : Option Event)
    → get_elem? p.events m.pos ≡ o
    → LastFinish ((complete m kind >>= λ _. pure tt) inp p)
unfolding ◌>>=◌ complete lift pure Api.complete Impl.complete Impl.◌>>=◌ Impl.push_event Impl.pure
LastFinish-complete m kind inp p none e = rw e tt
LastFinish-complete m kind inp p (some (start slot fp)) e =
    rw e (set p.events m.pos (start kind fp), refl)
LastFinish-complete m kind inp p (some finish) e = rw e tt
LastFinish-complete m kind inp p (some (token k n)) e = rw e tt
LastFinish-complete m kind inp p (some (error msg)) e = rw e tt

LastFinish-bind :
    {A B : Type 0} (m : Gram A) (f : A → Gram B) (inp : ParserInput) (p : ParserImpl)
    → ((a : A) (q : ParserImpl) → LastFinish (f a inp q))
    → LastFinish ((m >>= f) inp p)
unfolding ◌>>=◌
LastFinish-bind m f inp p h = LastFinish-go_on (m inp p) (λ a q. f a inp q) h

-- The last thing that `root` does is to complete the marker of the whole file.
LastFinish-root : (g : Grammar) (inp : ParserInput) (p : ParserImpl) → LastFinish (root g inp p)
unfolding root
LastFinish-root g inp p =
    LastFinish-bind Ops.start
      (λ m. eat SyntaxKind.shebang >>= λ _.
        mod_contents g false >>= λ _. complete m SyntaxKind.source_file >>= λ _. pure tt)
      inp p
      λ m q.
        LastFinish-bind (eat SyntaxKind.shebang)
          (λ _. mod_contents g false >>= λ _. complete m SyntaxKind.source_file >>= λ _. pure tt)
          inp q
          λ _ r.
            LastFinish-bind (mod_contents g false)
              (λ _. complete m SyntaxKind.source_file >>= λ _. pure tt) inp r
              λ _ s.
                LastFinish-complete m SyntaxKind.source_file inp s (get_elem? s.events m.pos) refl

EndsInFinish-append : (es : List Event) → EndsInFinish (map shape (es ++ finish ∷ []))
unfolding shape
EndsInFinish-append [] = refl
EndsInFinish-append (e ∷ []) = refl
EndsInFinish-append (e ∷ f ∷ es) = EndsInFinish-append (f ∷ es)

pub Sound-new :
    (text : List ℕ) (tokens : List Token)
    → AllPos tokens
    → Sound tokens (Input.new text tokens) Impl.new
Sound-new text tokens pos = record {
  run = done;
  fit = Fit-new text tokens pos;
  bounded = omega arith;
}

Ends-root :
    (xid : UnicodeXid) (text : List ℕ) (tokens : List Token)
    → tokenize xid text ≡ some tokens
    → Ends tokens
        (Input.new text tokens)
        0
        []
        nothing
        (root (grammar enough) (Input.new text tokens) Impl.new)
unfolding enough
Ends-root xid text tokens lexed =
    let inp = Input.new text tokens in
    ((Call-root tokens inp (grammar enough) (Calls-grammar tokens inp enough)).keeps []).ends
      Impl.new (Sound-new text tokens (AllPos-tokenize xid text tokens lexed)) tt
      (omega (arith, fuel_of_grammar tokens inp enough))

Ends-ne-spent :
    (tokens : List Token) (inp : ParserInput) (o : Outcome (Unit {0}))
    → Ends tokens inp 0 [] nothing o
    → o ≢ spent
Ends-ne-spent tokens inp (returns a q) h e = cc e
Ends-ne-spent tokens inp panics h e = cc e
Ends-ne-spent tokens inp spent h e = h

-- Lex a text and run the grammar on it: however the tokens are nested, no loop and no recursion of
-- the grammar runs out of fuel. It returns or panics.
pub root-ne-spent :
    (xid : UnicodeXid) (text : List ℕ) (tokens : List Token)
    → tokenize xid text ≡ some tokens
    → root (grammar enough) (Input.new text tokens) Impl.new ≢ spent
root-ne-spent xid text tokens lexed =
    Ends-ne-spent tokens (Input.new text tokens)
      (root (grammar enough) (Input.new text tokens) Impl.new) (Ends-root xid text tokens lexed)

Sound-result :
    (tokens : List Token) (inp : ParserInput) (o : Outcome (Unit {0})) (last : ParserImpl)
    → Ends tokens inp 0 [] nothing o
    → result o ≡ some (tt, last)
    → Sound tokens inp last
Sound-result tokens inp (returns a q) last h e =
    let same : ◌≡◌ {A = Unit {0} × ParserImpl} (a, q) (tt, last) = cc e in
    subst (Sound tokens inp) (ap (λ r. r.1) same) h.0
Sound-result tokens inp panics last h e = cc e
Sound-result tokens inp spent last h e = cc e

LastFinish-result :
    (o : Outcome (Unit {0})) (last : ParserImpl)
    → LastFinish o
    → result o ≡ some (tt, last)
    → LastFinish (returns tt last)
LastFinish-result (returns a q) last h e =
    let same : ◌≡◌ {A = Unit {0} × ParserImpl} (a, q) (tt, last) = cc e in
    subst (λ r. LastFinish (returns tt r)) (ap (λ r. r.1) same) h
LastFinish-result panics last h e = cc e
LastFinish-result spent last h e = cc e

Sound-parse_root :
    (xid : UnicodeXid) (text : List ℕ) (tokens : List Token) (last : ParserImpl)
    → tokenize xid text ≡ some tokens
    → parse_root (Input.new text tokens) Impl.new ≡ some (tt, last)
    → Sound tokens (Input.new text tokens) last
unfolding parse_root
Sound-parse_root xid text tokens last lexed returned =
    Sound-result tokens (Input.new text tokens)
      (root (grammar enough) (Input.new text tokens) Impl.new) last
      (Ends-root xid text tokens lexed) returned

-- Lex a text and run the grammar on it. Where it returns, it came to its state by operations of
-- the parser alone, none of which panicked: markers that are abandoned are nobody's forward parent,
-- markers that are preceded are of earlier events, and tokens that are taken together touch one
-- another.
pub parse_root-Run :
    (xid : UnicodeXid) (text : List ℕ) (tokens : List Token) (last : ParserImpl)
    → tokenize xid text ≡ some tokens
    → parse_root (Input.new text tokens) Impl.new ≡ some (tt, last)
    → Run (Input.new text tokens) Impl.new last
parse_root-Run xid text tokens last lexed returned =
    (Sound-parse_root xid text tokens last lexed returned).run

EndsInFinish-parse_root :
    (inp : ParserInput) (p last : ParserImpl) (events : List Event)
    → parse_root inp p ≡ some (tt, last)
    → last.events ≡ events
    → EndsInFinish (map shape events)
unfolding parse_root
EndsInFinish-parse_root inp p last events returned same =
    let (es, eq) =
      LastFinish-result (root (grammar enough) inp p) last (LastFinish-root (grammar enough) inp p)
        returned in
    subst (λ l. EndsInFinish (map shape l)) (sym eq ∙ same) (EndsInFinish-append es)

-- Lex a text and run the grammar on it. Where it returns and the parser takes its events, the events
-- can be played back: `parse_with` does not panic, and the texts of the leaves that it puts into
-- the tree, in order, are the text.
pub parse_root-BuildsText :
    (xid : UnicodeXid) (text : List ℕ) (tokens : List Token) (last : ParserImpl)
    (events : List Event)
    → tokenize xid text ≡ some tokens
    → parse_root (Input.new text tokens) Impl.new ≡ some (tt, last)
    → into_events (Input.new text tokens) last ≡ some events
    → BuildsText text (parse_with text tokens parse_root)
parse_root-BuildsText xid text tokens last events lexed returned at_eof =
    let inp = Input.new text tokens in
    parse_with-Run xid text tokens parse_root last events lexed returned
      (parse_root-Run xid text tokens last lexed returned) at_eof
      (EndsInFinish-parse_root inp Impl.new last events returned
        (AtEnd-into_events inp last events at_eof).same)
