-- ===== src/Parser/ParseWith.antt =====
-- `parse_with` of crates/ra_syntax/src/parser_impl.rs: from a text and its tokens to the calls that
-- build the tree. The grammar is an argument; `Sink::finish` is the caller's.
use rust_analyzer.Base.{ℕ, ◌≡◌, List, [], ◌∷◌, Option, none, some, map, refl, sym, ◌∙◌, subst}
use rust_analyzer.Base
use rust_analyzer.Lexer.Classes.{UnicodeXid}
use rust_analyzer.Lexer.Tokenize.{Token, tokenize}
use rust_analyzer.Lexer.Tokenize.Lossless.{Tiles, no_tokens, one_token, tokenize-Tiles}
use rust_analyzer.Parser.Event.{Event}
use rust_analyzer.Parser.Sink.{SinkCall}
use rust_analyzer.Parser.Input
use rust_analyzer.Parser.Input.{ParserInput}
use rust_analyzer.Parser.Impl
use rust_analyzer.Parser.Impl.{Parse, ParserImpl, into_events}
use rust_analyzer.Parser.Process.{process}
use rust_analyzer.Parser.Process.Cursor.{Covers, covers_nil, covers_cons}
use rust_analyzer.Parser.Process.Trivia.{skip_trivias}
use rust_analyzer.Parser.Process.Links.{IsLinked, shape}
use rust_analyzer.Parser.Process.Step.{Feeds, EndsInFinish}
use rust_analyzer.Parser.Process.Lossless.{BuildsText, process-BuildsText}

-- parse_with
unfoldable pub parse_with :
    List ℕ → List Token → (ParserInput → Parse (Unit {0})) → Option (List SinkCall)
unfolding Input.new
parse_with text tokens parser = Base.◌>>=◌ (parser (Input.new text tokens) Impl.new) λ (done, p).
    Base.◌>>=◌ (into_events (Input.new text tokens) p) λ events. process text tokens events

pub Tiles-Covers :
    {xid : UnicodeXid} {tokens : List Token} {text rest : List ℕ}
    → Tiles xid tokens text rest
    → rest ≡ []
    → Covers tokens text
Tiles-Covers no_tokens e = subst (Covers []) (sym e) covers_nil
Tiles-Covers (one_token piece mid n splits pos measured t) e =
    covers_cons piece mid splits measured (Tiles-Covers t e)

pub tokenize-Covers :
    (xid : UnicodeXid) (text : List ℕ) (tokens : List Token)
    → tokenize xid text ≡ some tokens
    → Covers tokens text
tokenize-Covers xid text tokens e =
    let (found, returned, t) = tokenize-Tiles xid text in
    let same : found ≡ tokens = cc (returned, e) in
    Tiles-Covers (subst (λ ts. Tiles xid ts text []) same t) refl

-- The events that a grammar leaves are fit to be processed: it read all tokens, its forward parents
-- are starts further on, its last event is a finish, and its token events take all tokens but
-- trivia.
pub record LeavesEvents (tokens : List Token) (inp : ParserInput)
    (o : Option (Unit {0} × ParserImpl)) : Type 0 where
  pub last : ParserImpl
  pub events : List Event
  pub returned : o ≡ some (tt, last)
  pub at_eof : into_events inp last ≡ some events
  pub linked : IsLinked events
  pub feeds : Feeds (map shape events) (skip_trivias tokens)
  pub ends : EndsInFinish (map shape events)

-- Lex a text, and parse the tokens with a grammar that leaves events fit to be processed. Then
-- `parse_with` does not panic, and the texts of the leaves that it puts into the tree, in order, are
-- the text.
pub parse_with-BuildsText :
    (xid : UnicodeXid) (text : List ℕ) (tokens : List Token)
    (parser : ParserInput → Parse (Unit {0}))
    → tokenize xid text ≡ some tokens
    → LeavesEvents tokens (Input.new text tokens) (parser (Input.new text tokens) Impl.new)
    → BuildsText text (parse_with text tokens parser)
unfolding parse_with
parse_with-BuildsText xid text tokens parser lexed l =
    rw (l.returned, l.at_eof)
      (process-BuildsText text tokens l.events (tokenize-Covers xid text tokens lexed) l.linked
        l.feeds l.ends)
