-- ===== src/Tests.antt =====
-- The theorems at concrete inputs: a text is lexed, a small tree is built.
use rust_analyzer.Base.{
  ℕ, drop, ◌↔◌, ◌≡◌, refl, true, false, List, [], ◌∷◌, Option, none, some, arith, zero, suc,
  get_elem?, map, subst,
}
use rust_analyzer.SyntaxKind
use rust_analyzer.SyntaxKind.{SyntaxKind}
use rust_analyzer.SyntaxKind.Text.{from_keyword}
use rust_analyzer.SyntaxKind.Reserved.{is_reserved, keyword_text, from_keyword-keyword_text_iff}
use rust_analyzer.TokenSet
use rust_analyzer.TokenSet.{TokenSet}
use rust_analyzer.TokenSet.Members.{mem, any_contains, contains-token_set, contains-token_set_union}
use rust_analyzer.Lexer.Classes.{UnicodeXid}
use rust_analyzer.Lexer.Tokenize.{Token, tokenize}
use rust_analyzer.Lexer.Tokenize.Lossless.{Tiles, tokenize-Tiles}
use rust_analyzer.Parser.Event.{Event}
use rust_analyzer.Parser.Input
use rust_analyzer.Parser.Input.{ParserInput}
use rust_analyzer.Parser.Impl
use rust_analyzer.Parser.Impl.{Parse, ◌>>=◌, ◌>>◌}
use rust_analyzer.Parser.Impl.{into_events}
use rust_analyzer.Lexer.Tokenize.Kinds.{AllLexed, tokenize-AllLexed}
use rust_analyzer.Parser.Steps.{Run, done, then_step, by_start, by_bump, by_complete}
use rust_analyzer.Parser.Impl.{next2, next3}
use rust_analyzer.Parser.Steps.RawPairs.{raw_pair, raw_triple, next2-raw_pair, next3-raw_triple}
use rust_analyzer.Lexer.Ptr.{Ptr}
use rust_analyzer.StringLexing.Components.{StringComponentKind, parse_component}
use rust_analyzer.StringLexing.Components.Within.{PassesOver, parse_component-PassesOver}
use rust_analyzer.Parser.Steps.Builds.{parse_with-Run, Fit-new, AllPos-tokenize}
use rust_analyzer.Parser.Steps.Fit.{Fit}
use rust_analyzer.Parser.Steps.Invariant.{Fit-Step}
use rust_analyzer.Parser.Api.Lookahead.{at_ts-mem, err_recover-progress}
use rust_analyzer.Parser.Api
use rust_analyzer.Parser.Process
use rust_analyzer.Parser.Process.{process, follow}
use rust_analyzer.Parser.Process.Cursor.{At}
use rust_analyzer.Parser.Process.Trivia.{skip_trivias}
use rust_analyzer.Parser.Process.Start.{Starts, Starts-start}
use rust_analyzer.Parser.Process.Links.{IsLinked, LinksTo, shape, Followed, Followed-follow}
use rust_analyzer.Parser.Process.Step.{Feeds}
use rust_analyzer.Parser.Process.Lossless.{BuildsText, process-BuildsText, At_zero}
use rust_analyzer.Parser.ParseWith.{
  parse_with, tokenize-Covers, LeavesEvents, parse_with-BuildsText,
}

-- No character above 0x7f is in an identifier.
abbrev no_xid : UnicodeXid
no_xid = record { is_xid_start = λ c. false; is_xid_continue = λ c. false }

-- `fn f`
abbrev fn_f : List ℕ
fn_f = b'f' ∷ b'n' ∷ 32 ∷ b'f' ∷ []

abbrev fn_f_tokens : List Token
fn_f_tokens =
    record { kind = SyntaxKind.fn_kw; len = 2 }
    ∷ record { kind = SyntaxKind.whitespace; len = 1 }
    ∷ record { kind = SyntaxKind.ident; len = 1 }
    ∷ []

tokenize-Tiles_example :
    (tokens : List Token) × (tokenize no_xid fn_f ≡ some tokens) × Tiles no_xid tokens fn_f []
tokenize-Tiles_example = tokenize-Tiles no_xid fn_f

fn_f_lexed : tokenize no_xid fn_f ≡ some fn_f_tokens
unfolding tokenize rust_analyzer.Base.Loop.loop rust_analyzer.Lexer.Tokenize.next_token
    rust_analyzer.Lexer.Scan.scan_solid rust_analyzer.Lexer.Classes.is_ident_start
    rust_analyzer.Lexer.Strings.is_string_literal_start rust_analyzer.Base.Str.slice_from
    rust_analyzer.Base.Str.split_at rust_analyzer.Lexer.Ptr.into_len rust_analyzer.Base.Str.str_len
    rust_analyzer.Lexer.Scan.scan_ident rust_analyzer.Lexer.Ptr.bump
    rust_analyzer.Lexer.Classes.is_ident_continue rust_analyzer.Lexer.Ptr.bump_while from_keyword
fn_f_lexed = refl

contains-token_set_example :
    TokenSet.contains
      (TokenSet.token_set (SyntaxKind.semi ∷ SyntaxKind.comma ∷ []))
      SyntaxKind.comma
    ≡ mem SyntaxKind.comma (SyntaxKind.semi ∷ SyntaxKind.comma ∷ [])
contains-token_set_example =
    contains-token_set (SyntaxKind.semi ∷ SyntaxKind.comma ∷ []) SyntaxKind.comma
      (omega arith, (omega arith, tt)) (omega arith)

contains-token_set_union_example :
    TokenSet.contains
      (TokenSet.token_set_union (TokenSet.empty ∷ TokenSet.token_set (SyntaxKind.comma ∷ []) ∷ []))
      SyntaxKind.comma
    ≡ any_contains SyntaxKind.comma
        (TokenSet.empty ∷ TokenSet.token_set (SyntaxKind.comma ∷ []) ∷ [])
contains-token_set_union_example =
    contains-token_set_union (TokenSet.empty ∷ TokenSet.token_set (SyntaxKind.comma ∷ []) ∷ [])
      SyntaxKind.comma

fn_is_keyword : from_keyword (b'f' ∷ b'n' ∷ []) ≡ some SyntaxKind.fn_kw
unfolding from_keyword
fn_is_keyword = refl

from_keyword-keyword_text_iff_example :
    (from_keyword (b'f' ∷ b'n' ∷ []) ≡ some SyntaxKind.fn_kw)
    ↔ ((is_reserved SyntaxKind.fn_kw ≡ true) × (b'f' ∷ b'n' ∷ [] ≡ keyword_text SyntaxKind.fn_kw))
from_keyword-keyword_text_iff_example =
    from_keyword-keyword_text_iff (b'f' ∷ b'n' ∷ []) SyntaxKind.fn_kw

-- The events of a tree `PATH_EXPR(PATH(f))` in a file, the path with a forward parent.
abbrev linked_events : List Event
linked_events =
    Event.start SyntaxKind.source_file none
    ∷ Event.start SyntaxKind.path (some 3)
    ∷ Event.token SyntaxKind.ident 1
    ∷ Event.finish
    ∷ Event.start SyntaxKind.path_expr none
    ∷ Event.finish
    ∷ Event.finish
    ∷ []

linked_events-IsLinked : IsLinked linked_events
linked_events-IsLinked = record { links = go }
  where
    go :
        (i : ℕ) (kind : SyntaxKind) (forward_parent : Option ℕ)
        → get_elem? linked_events i ≡ some (Event.start kind forward_parent)
        → LinksTo linked_events i forward_parent
    go zero kind forward_parent e = subst (LinksTo linked_events 0) {x = none} (cc) tt
    go (suc zero) kind forward_parent e = subst (LinksTo linked_events 1) {x = some 3} (cc) (
      omega arith,
      record { kind = SyntaxKind.path_expr; forward_parent = none; is_start = refl },
    )
    go (suc (suc zero)) kind forward_parent e = cc
    go (suc (suc (suc zero))) kind forward_parent e = cc
    go (suc (suc (suc (suc zero)))) kind forward_parent e =
        subst (LinksTo linked_events 4) {x = none} (cc) tt
    go (suc (suc (suc (suc (suc zero))))) kind forward_parent e = cc
    go (suc (suc (suc (suc (suc (suc zero)))))) kind forward_parent e = cc
    go (suc (suc (suc (suc (suc (suc (suc i))))))) kind forward_parent e = cc

Followed-follow_example :
    Followed linked_events 1
      (some 3)
      (SyntaxKind.path ∷ [])
      (follow 7 1 (some 3) (SyntaxKind.path ∷ []) linked_events)
Followed-follow_example =
    Followed-follow 7 1 (some 3) (SyntaxKind.path ∷ []) linked_events (omega arith)
      (linked_events-IsLinked.links 1 SyntaxKind.path (some 3) refl) linked_events-IsLinked

-- ` f `
abbrev f_text : List ℕ
f_text = 32 ∷ b'f' ∷ 32 ∷ []

abbrev f_tokens : List Token
f_tokens =
    record { kind = SyntaxKind.whitespace; len = 1 }
    ∷ record { kind = SyntaxKind.ident; len = 1 }
    ∷ record { kind = SyntaxKind.whitespace; len = 1 }
    ∷ []

f_lexed : tokenize no_xid f_text ≡ some f_tokens
unfolding tokenize rust_analyzer.Base.Loop.loop rust_analyzer.Lexer.Tokenize.next_token
    rust_analyzer.Lexer.Scan.scan_solid rust_analyzer.Lexer.Classes.is_ident_start
    rust_analyzer.Lexer.Strings.is_string_literal_start rust_analyzer.Base.Str.slice_from
    rust_analyzer.Base.Str.split_at rust_analyzer.Lexer.Ptr.into_len rust_analyzer.Base.Str.str_len
    rust_analyzer.Lexer.Scan.scan_ident rust_analyzer.Lexer.Ptr.bump
    rust_analyzer.Lexer.Classes.is_ident_continue rust_analyzer.Lexer.Ptr.bump_while from_keyword
f_lexed = refl

linked_events-Feeds : Feeds (map shape linked_events) (skip_trivias f_tokens)
unfolding Feeds shape skip_trivias
linked_events-Feeds = (omega arith, refl)

process-BuildsText_example : BuildsText f_text (process f_text f_tokens linked_events)
unfolding shape
process-BuildsText_example =
    process-BuildsText f_text f_tokens linked_events
      (tokenize-Covers no_xid f_text f_tokens f_lexed) linked_events-IsLinked linked_events-Feeds
      refl

f_at_start : At f_text f_tokens f_tokens (record { sink = []; text_pos = 0; token_pos = 0 })
f_at_start = At_zero f_text f_tokens (tokenize-Covers no_xid f_text f_tokens f_lexed)

Starts-start_example : Starts f_text f_tokens f_tokens (
    Process.start f_text f_tokens SyntaxKind.path
      (record { sink = []; text_pos = 0; token_pos = 0 }))
Starts-start_example =
    Starts-start f_text f_tokens SyntaxKind.path f_tokens
      (record { sink = []; text_pos = 0; token_pos = 0 }) f_at_start

-- A grammar for one identifier: `SOURCE_FILE(ident)`.
abbrev one_ident : ParserInput → Parse (Unit {0})
one_ident inp = do m ← Api.start; Api.bump inp; Api.complete m SyntaxKind.source_file; Impl.pure tt

abbrev one_ident_events : List Event
one_ident_events =
    Event.start SyntaxKind.source_file none ∷ Event.token SyntaxKind.ident 1 ∷ Event.finish ∷ []

one_ident_events-IsLinked : IsLinked one_ident_events
one_ident_events-IsLinked = record { links = go }
  where
    go :
        (i : ℕ) (kind : SyntaxKind) (forward_parent : Option ℕ)
        → get_elem? one_ident_events i ≡ some (Event.start kind forward_parent)
        → LinksTo one_ident_events i forward_parent
    go zero kind forward_parent e = subst (LinksTo one_ident_events 0) {x = none} (cc) tt
    go (suc zero) kind forward_parent e = cc
    go (suc (suc zero)) kind forward_parent e = cc
    go (suc (suc (suc i))) kind forward_parent e = cc

one_ident-LeavesEvents :
    LeavesEvents f_tokens
      (Input.new f_text f_tokens)
      (one_ident (Input.new f_text f_tokens) Impl.new)
unfolding Input.new Impl.nth Impl.bump Impl.start Impl.complete Impl.into_events Input.kind
    Input.collect Api.start Api.bump Api.complete Impl.push_event Impl.do_bump Impl.pure Impl.◌>>=◌
    Feeds shape skip_trivias
one_ident-LeavesEvents = record {
  last = record { pos = 1; events = one_ident_events; steps = 1 };
  events = one_ident_events;
  returned = refl;
  at_eof = refl;
  linked = one_ident_events-IsLinked;
  feeds = (omega arith, refl);
  ends = refl;
}

parse_with-BuildsText_example : BuildsText f_text (parse_with f_text f_tokens one_ident)
parse_with-BuildsText_example =
    parse_with-BuildsText no_xid f_text f_tokens one_ident f_lexed one_ident-LeavesEvents

one_ident_returns :
    one_ident (Input.new f_text f_tokens) Impl.new
    ≡ some (tt, record { pos = 1; events = one_ident_events; steps = 1 })
unfolding Input.new Impl.nth Impl.bump Impl.start Impl.complete Input.kind Input.collect Api.start
    Api.bump Api.complete Impl.push_event Impl.do_bump Impl.pure Impl.◌>>=◌
one_ident_returns = refl

one_ident_at_eof :
    into_events
      (Input.new f_text f_tokens)
      (record { pos = 1; events = one_ident_events; steps = 1 })
    ≡ some one_ident_events
unfolding into_events Input.new Impl.nth Input.kind Input.collect
one_ident_at_eof = refl

-- The same grammar as a run of the parser's operations.
one_ident-Run :
    Run
      (Input.new f_text f_tokens)
      Impl.new
      (record { pos = 1; events = one_ident_events; steps = 1 })
unfolding Input.new Impl.nth Impl.bump Impl.start Impl.complete Input.kind Input.collect
    Impl.push_event Impl.do_bump Impl.pure Impl.◌>>=◌
one_ident-Run =
    then_step
      (then_step
        (then_step done (
          by_start
            {q = record { pos = 0; events = Event.start SyntaxKind.tombstone none ∷ []; steps = 0 }}
            0 refl))
        (by_bump
          {q = record {
            pos = 1;
            events = Event.start SyntaxKind.tombstone none ∷ Event.token SyntaxKind.ident 1 ∷ [];
            steps = 1;
          }}
          refl))
      (by_complete 0 SyntaxKind.source_file refl)

parse_with-Run_example : BuildsText f_text (parse_with f_text f_tokens one_ident)
unfolding shape
parse_with-Run_example =
    parse_with-Run no_xid f_text f_tokens one_ident
      (record { pos = 1; events = one_ident_events; steps = 1 }) one_ident_events f_lexed
      one_ident_returns one_ident-Run one_ident_at_eof refl

tokenize-AllLexed_example : AllLexed fn_f_tokens
tokenize-AllLexed_example = tokenize-AllLexed no_xid fn_f fn_f_tokens fn_f_lexed

-- An error node for the one token.
f_input_AllLexed : AllLexed (Input.new f_text f_tokens).tokens
unfolding Input.new Input.collect
f_input_AllLexed = (refl, tt)

at_ts-mem_example :
    Api.at_ts
      (Input.new f_text f_tokens)
      (TokenSet.token_set (SyntaxKind.comma ∷ SyntaxKind.ident ∷ []))
      Impl.new
    ≡ some (
      mem (Input.kind (Input.new f_text f_tokens) 0) (SyntaxKind.comma ∷ SyntaxKind.ident ∷ []),
      record { pos = 0; events = []; steps = 1 },
    )
at_ts-mem_example =
    at_ts-mem (Input.new f_text f_tokens) (SyntaxKind.comma ∷ SyntaxKind.ident ∷ []) Impl.new
      f_input_AllLexed (omega arith, (omega arith, tt)) (omega arith)

f_is_ident : Input.kind (Input.new f_text f_tokens) 0 ≡ SyntaxKind.ident
unfolding Input.new Input.collect Input.kind
f_is_ident = refl

no_comma : TokenSet.contains (TokenSet.token_set (SyntaxKind.comma ∷ [])) SyntaxKind.ident ≡ false
unfolding TokenSet.contains TokenSet.token_set TokenSet.mask
no_comma = refl

err_recover-progress_example :
    Api.err_recover
      (Input.new f_text f_tokens)
      "expected item"
      (TokenSet.token_set (SyntaxKind.comma ∷ []))
      Impl.new
    ≡ some (
      tt,
      record {
        pos = 1;
        events =
            Event.start SyntaxKind.error none
            ∷ Event.error "expected item"
            ∷ Event.token (Input.kind (Input.new f_text f_tokens) 0) 1
            ∷ Event.finish
            ∷ [];
        steps = 4;
      },
    )
err_recover-progress_example =
    err_recover-progress (Input.new f_text f_tokens) "expected item"
      (TokenSet.token_set (SyntaxKind.comma ∷ [])) Impl.new (omega arith)
      (λ e. omega (arith, e, f_is_ident)) (λ e. omega (arith, e, f_is_ident))
      (λ e. omega (arith, e, f_is_ident)) (rw f_is_ident no_comma)

Fit-Step_example :
    Fit f_tokens
      (Input.new f_text f_tokens)
      (record { pos = 0; events = Event.start SyntaxKind.tombstone none ∷ []; steps = 0 })
unfolding Impl.start Impl.push_event Impl.pure Impl.◌>>=◌
Fit-Step_example =
    Fit-Step f_tokens (Input.new f_text f_tokens) (by_start {p = Impl.new} 0 refl)
      (Fit-new f_text f_tokens (AllPos-tokenize no_xid f_text f_tokens f_lexed))

-- `..= =`, of which the first three touch.
abbrev dots_text : List ℕ
dots_text = b'.' ∷ b'.' ∷ b'=' ∷ 32 ∷ b'=' ∷ []

abbrev dots_tokens : List Token
dots_tokens =
    record { kind = SyntaxKind.dot; len = 1 }
    ∷ record { kind = SyntaxKind.dot; len = 1 }
    ∷ record { kind = SyntaxKind.eq; len = 1 }
    ∷ record { kind = SyntaxKind.whitespace; len = 1 }
    ∷ record { kind = SyntaxKind.eq; len = 1 }
    ∷ []

dots-Fit : Fit dots_tokens (Input.new dots_text dots_tokens) Impl.new
dots-Fit =
    Fit-new dots_text dots_tokens
      (omega arith, (omega arith, (omega arith, (omega arith, (omega arith, tt)))))

next2-raw_pair_example :
    next2 (Input.new dots_text dots_tokens) Impl.new ≡ some (raw_pair dots-Fit.rest, Impl.new)
next2-raw_pair_example =
    next2-raw_pair dots_tokens (Input.new dots_text dots_tokens) Impl.new dots-Fit

next3-raw_triple_example :
    next3 (Input.new dots_text dots_tokens) Impl.new ≡ some (raw_triple dots-Fit.rest, Impl.new)
next3-raw_triple_example =
    next3-raw_triple dots_tokens (Input.new dots_text dots_tokens) Impl.new dots-Fit

dots_raw_triple : raw_triple dots_tokens ≡ some (SyntaxKind.dot, SyntaxKind.dot, SyntaxKind.eq)
unfolding raw_triple
dots_raw_triple = refl

eq_raw_pair : raw_pair (drop 2 dots_tokens) ≡ none
unfolding raw_pair
eq_raw_pair = refl

-- The byte code in the literal `'\x41'`, behind the opening quote.
abbrev hex_literal : Ptr
hex_literal = record { seen = 39 ∷ []; rest = 92 ∷ b'x' ∷ b'4' ∷ b'1' ∷ 39 ∷ [] }

hex_parsed :
    parse_component 39 hex_literal
    ≡ some (
      record { from = 1; to = 5; kind = StringComponentKind.ascii_code_escape },
      record { seen = 39 ∷ 92 ∷ b'x' ∷ b'4' ∷ b'1' ∷ []; rest = 39 ∷ [] },
    )
unfolding parse_component rust_analyzer.Base.Loop.loop rust_analyzer.Lexer.Ptr.bump
    rust_analyzer.Lexer.Ptr.into_len rust_analyzer.Base.Str.str_len rust_analyzer.Base.Str.len_utf8
hex_parsed = refl

parse_component-PassesOver_example :
    PassesOver hex_literal
      (record { from = 1; to = 5; kind = StringComponentKind.ascii_code_escape })
      (record { seen = 39 ∷ 92 ∷ b'x' ∷ b'4' ∷ b'1' ∷ []; rest = 39 ∷ [] })
parse_component-PassesOver_example = parse_component-PassesOver 39 hex_literal _ _ hex_parsed
