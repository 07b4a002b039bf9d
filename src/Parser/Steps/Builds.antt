-- ===== src/Parser/Steps/Builds.antt =====
-- A grammar that works through the parser leaves events that build the whole text
-- (crates/ra_syntax/src/parser_impl.rs).
use rust_analyzer.Base.{
  ℕ, zero, suc, ◌+◌, ◌<◌, length, ◌≡◌, ◌≢◌, refl, ◌∙◌, sym, ap, subst, List, [], ◌∷◌, Option, none,
  some, arith, drop, get_elem?, map, if◌then◌else◌, true, false, Bool, ◌==◌, ==_iff, Option-cases,
  inl, inr, leb, Bool-cases,
}
use rust_analyzer.Base
use rust_analyzer.SyntaxKind
use rust_analyzer.SyntaxKind.{SyntaxKind, is_trivia}
use rust_analyzer.Lexer.Classes.{UnicodeXid}
use rust_analyzer.Lexer.Tokenize.{Token, tokenize}
use rust_analyzer.Lexer.Scan.Kinds.{IsLexed}
use rust_analyzer.Lexer.Tokenize.Kinds.{AllLexed, tokenize-AllLexed}
use rust_analyzer.Parser.Event.{Event}
use rust_analyzer.Parser.Input
use rust_analyzer.Parser.Input.{ParserInput, kind_or_eof}
use rust_analyzer.Parser.Impl
use rust_analyzer.Parser.Impl.{Parse, ParserImpl, into_events}
use rust_analyzer.Parser.Process.Trivia.{skip_trivias}
use rust_analyzer.Parser.Process.Links.{IsLinked, shape}
use rust_analyzer.Parser.Process.Step.{EndsInFinish}
use rust_analyzer.Parser.Process.Lossless.{BuildsText}
use rust_analyzer.Parser.ParseWith.{parse_with, LeavesEvents, parse_with-BuildsText}
use rust_analyzer.Parser.Steps.{Run}
use rust_analyzer.Parser.Steps.Takes.{Takes, Takes-Feeds, solids, solids-nil, new-solids}
use rust_analyzer.Base.Str.{str_len, len_utf8_pos}
use rust_analyzer.Lexer.Tokenize.Lossless.{Tiles, no_tokens, one_token, tokenize-Tiles}
use rust_analyzer.Parser.Steps.Aligned.{AllPos, Aligned-new}
use rust_analyzer.Parser.Steps.Fit.{Fit}
use rust_analyzer.Parser.Steps.Invariant.{Fit-Run}

-- No token has the kind of the end of the input.
abbrev NoEof : List Token → Type 0
NoEof [] = Unit {0}
NoEof (t ∷ ts) = (t.kind ≢ SyntaxKind.eof) × NoEof ts

NoEof-AllLexed : (ts : List Token) → AllLexed ts → NoEof ts
NoEof-AllLexed [] h = tt
NoEof-AllLexed (t ∷ ts) h =
    (λ e. let bad : IsLexed SyntaxKind.eof = subst IsLexed e h.0 in cc bad, NoEof-AllLexed ts h.1)

pub Fit-new :
    (text : List ℕ) (tokens : List Token)
    → AllPos tokens
    → Fit tokens (Input.new text tokens) Impl.new
unfolding Takes
Fit-new text tokens pos = record {
  linked = record { links = λ i kind forward_parent e. cc e };
  rest = skip_trivias tokens;
  takes = refl;
  aligned = Aligned-new text tokens pos;
}

-- Tokens are not empty.
str_len_pos : (s : List ℕ) → 0 < length s → 0 < str_len s
unfolding str_len
str_len_pos [] h = absurd (omega arith)
str_len_pos (c ∷ s) h = omega (arith, len_utf8_pos c)

AllPos-Tiles :
    (xid : UnicodeXid) {tokens : List Token} {text rest : List ℕ}
    → Tiles xid tokens text rest
    → AllPos tokens
AllPos-Tiles xid no_tokens = tt
AllPos-Tiles xid (one_token piece mid next splits pos measured tiles) =
    (omega (arith, measured, str_len_pos piece pos), AllPos-Tiles xid tiles)

pub AllPos-tokenize :
    (xid : UnicodeXid) (text : List ℕ) (tokens : List Token)
    → tokenize xid text ≡ some tokens
    → AllPos tokens
AllPos-tokenize xid text tokens e =
    let (found, returned, t) = tokenize-Tiles xid text in
    let same : found ≡ tokens = cc (returned, e) in subst AllPos same (AllPos-Tiles xid t)

NoEof-if :
    (b : Bool) (t : Token) (ts : List Token)
    → t.kind ≢ SyntaxKind.eof
    → NoEof ts
    → NoEof (if b then ts else t ∷ ts)
NoEof-if true t ts h hs = hs
NoEof-if false t ts h hs = (h, hs)

NoEof-solids : (ts : List Token) → NoEof ts → NoEof (solids ts)
unfolding solids
NoEof-solids [] h = tt
NoEof-solids (t ∷ ts) h = NoEof-if (is_trivia t.kind) t (solids ts) h.0 (NoEof-solids ts h.1)

-- Where the grammar sees the end, no token is left.
nothing_ahead :
    (ts : List Token) (pos : ℕ)
    → NoEof ts
    → kind_or_eof (get_elem? ts pos) ≡ SyntaxKind.eof
    → drop pos ts ≡ []
nothing_ahead [] zero h e = refl
nothing_ahead [] (suc pos) h e = refl
nothing_ahead (t ∷ ts) zero h e = absurd (h.0 e)
nothing_ahead (t ∷ ts) (suc pos) h e = nothing_ahead ts pos h.1 e

-- What `into_events` gives are the events, at the end of the input.
pub record AtEnd (inp : ParserInput) (p : ParserImpl) (events : List Event) : Type 0 where
  pub same : p.events ≡ events
  pub eof : kind_or_eof (get_elem? inp.tokens p.pos) ≡ SyntaxKind.eof

AtEnd-if :
    (inp : ParserInput) (p : ParserImpl) (events : List Event) (at_eof : Bool)
    → (at_eof ≡ true → kind_or_eof (get_elem? inp.tokens p.pos) ≡ SyntaxKind.eof)
    → (if at_eof then some p.events else none) ≡ some events
    → AtEnd inp p events
AtEnd-if inp p events true h e = record { same = cc e; eof = h refl }
AtEnd-if inp p events false h e = cc e

AtEnd-within :
    (inp : ParserInput) (p : ParserImpl) (events : List Event) (within : Bool)
    → Base.◌>>=◌ {A = SyntaxKind × ParserImpl}
        (if within
          then some
              (kind_or_eof (get_elem? inp.tokens (p.pos + 0)), record p { steps = p.steps + 1 })
          else none)
        (λ r. if r.0 == SyntaxKind.eof then some r.1.events else none)
      ≡ some events
    → AtEnd inp p events
AtEnd-within inp p events true e =
    AtEnd-if inp p events (kind_or_eof (get_elem? inp.tokens (p.pos + 0)) == SyntaxKind.eof)
      (λ h.
        subst (λ k. kind_or_eof (get_elem? inp.tokens k) ≡ SyntaxKind.eof) {x = p.pos + 0}
          {y = p.pos} (omega arith) ((==_iff _ SyntaxKind.eof).0 h))
      e
AtEnd-within inp p events false e = cc e

pub AtEnd-into_events :
    (inp : ParserInput) (p : ParserImpl) (events : List Event)
    → into_events inp p ≡ some events
    → AtEnd inp p events
unfolding into_events Impl.nth Input.kind
AtEnd-into_events inp p events e = AtEnd-within inp p events (leb p.steps Impl.max_steps) e

Run-LeavesEvents :
    (text : List ℕ) (tokens : List Token) (last : ParserImpl) (events : List Event)
    (o : Option (Unit {0} × ParserImpl))
    → NoEof tokens
    → AllPos tokens
    → o ≡ some (tt, last)
    → Run (Input.new text tokens) Impl.new last
    → into_events (Input.new text tokens) last ≡ some events
    → EndsInFinish (map shape events)
    → LeavesEvents tokens (Input.new text tokens) o
Run-LeavesEvents text tokens last events o none_eof pos returned run at_eof ends =
    let inp = Input.new text tokens in
    let f = Fit-Run tokens inp run (Fit-new text tokens pos) in
    let e = AtEnd-into_events inp last events at_eof in
    let no_eof : NoEof inp.tokens =
      subst NoEof (sym (new-solids text tokens)) (NoEof-solids tokens none_eof) in
    let used_up : f.rest ≡ [] =
      solids-nil f.rest f.aligned.clean
        (f.aligned.ahead ∙ nothing_ahead inp.tokens last.pos no_eof e.eof) in
    record {
      last = last;
      events = events;
      returned = returned;
      at_eof = at_eof;
      linked = subst IsLinked e.same f.linked;
      feeds = Takes-Feeds events (skip_trivias tokens) (
          subst (λ es. Takes es (skip_trivias tokens) []) e.same
            (subst (Takes last.events (skip_trivias tokens)) used_up f.takes));
      ends = ends;
    }

-- Lex a text; run a grammar that does nothing but operations of the parser, none of which panics,
-- that stops at the end of the input and whose last event is a finish. Then `parse_with` does not
-- panic, and the texts of the leaves that it puts into the tree, in order, are the text.
-- (Markers are abandoned and preceded, and tokens are taken together, as `Step` allows.)
pub parse_with-Run :
    (xid : UnicodeXid) (text : List ℕ) (tokens : List Token)
    (parser : ParserInput → Parse (Unit {0})) (last : ParserImpl) (events : List Event)
    → tokenize xid text ≡ some tokens
    → parser (Input.new text tokens) Impl.new ≡ some (tt, last)
    → Run (Input.new text tokens) Impl.new last
    → into_events (Input.new text tokens) last ≡ some events
    → EndsInFinish (map shape events)
    → BuildsText text (parse_with text tokens parser)
parse_with-Run xid text tokens parser last events lexed returned run at_eof ends =
    parse_with-BuildsText xid text tokens parser lexed (
      Run-LeavesEvents text tokens last events _
        (NoEof-AllLexed tokens (tokenize-AllLexed xid text tokens lexed))
        (AllPos-tokenize xid text tokens lexed) returned run at_eof ends)
