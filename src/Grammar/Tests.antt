-- ===== src/Grammar/Tests.antt =====
-- The grammar (crates/ra_syntax/src/grammar/) at concrete inputs.
use rust_analyzer.Base.{ℕ, ◌≡◌, ◌≢◌, refl, false, List, [], ◌∷◌, Option, none, some, arith}
use rust_analyzer.SyntaxKind
use rust_analyzer.Lexer.Classes.{UnicodeXid}
use rust_analyzer.Lexer.Tokenize.{Token, tokenize}
use rust_analyzer.Parser.Event.{Event}
use rust_analyzer.Parser.Input
use rust_analyzer.Parser.Impl
use rust_analyzer.Parser.Impl.{ParserImpl, into_events}
use rust_analyzer.Parser.ParseWith.{parse_with}
use rust_analyzer.Parser.Process.Lossless.{BuildsText}
use rust_analyzer.Parser.Steps.{Run}
use rust_analyzer.SyntaxKind.Text.{from_keyword}
use rust_analyzer.Grammar.Monad.{spent}
use rust_analyzer.Grammar.Contents.{root}
use rust_analyzer.Grammar.AtEof.{parse_root-eof, parse_root_within-BuildsText}
use rust_analyzer.Grammar.Lossless.{root-ne-spent, parse_root-Run, parse_root-BuildsText}
use rust_analyzer.Grammar.Knot.{grammar, enough, parse_root}

-- No character above 0x7f is in an identifier.
abbrev no_xid : UnicodeXid
no_xid = record { is_xid_start = λ c. false; is_xid_continue = λ c. false }

abbrev mod_tokens : List Token
mod_tokens =
    record { kind = SyntaxKind.mod_kw; len = 3 }
    ∷ record { kind = SyntaxKind.whitespace; len = 1 }
    ∷ record { kind = SyntaxKind.ident; len = 1 }
    ∷ record { kind = SyntaxKind.semi; len = 1 }
    ∷ []

abbrev mod_m : List ℕ
mod_m = b'm' ∷ b'o' ∷ b'd' ∷ 32 ∷ b'm' ∷ b';' ∷ []

abbrev mod_events : List Event
mod_events =
    Event.start SyntaxKind.source_file none
    ∷ Event.start SyntaxKind.module_node none
    ∷ Event.token SyntaxKind.mod_kw 1
    ∷ Event.start SyntaxKind.name none
    ∷ Event.token SyntaxKind.ident 1
    ∷ Event.finish
    ∷ Event.token SyntaxKind.semi 1
    ∷ Event.finish
    ∷ Event.finish
    ∷ []

abbrev mod_last : ParserImpl
mod_last = record { pos = 3; events = mod_events; steps = 15 }

mod_returns : parse_root (Input.new mod_m mod_tokens) Impl.new ≡ some (tt, mod_last)
unfolding rust_analyzer.Grammar.Attributes.inner_attributes
    rust_analyzer.Grammar.Attributes.outer_attributes rust_analyzer.Grammar.Contents.item_end
    rust_analyzer.Grammar.Contents.item_or_macro rust_analyzer.Grammar.Contents.mod_contents
    rust_analyzer.Grammar.Contents.root rust_analyzer.Grammar.Items.mod_item
    rust_analyzer.Grammar.Knot.grammar rust_analyzer.Grammar.Knot.enough
    rust_analyzer.Grammar.Knot.parse_root rust_analyzer.Grammar.MaybeItems.gives
    rust_analyzer.Grammar.MaybeItems.items_without_modifiers
    rust_analyzer.Grammar.MaybeItems.modified_item rust_analyzer.Grammar.MaybeItems.maybe_item
    rust_analyzer.Grammar.Monad.pure rust_analyzer.Grammar.Monad.◌>>=◌
    rust_analyzer.Grammar.Monad.lift rust_analyzer.Grammar.Monad.assert
    rust_analyzer.Grammar.Monad.and rust_analyzer.Grammar.Monad.not
    rust_analyzer.Grammar.Monad.next_round rust_analyzer.Grammar.Monad.rounds
    rust_analyzer.Grammar.Monad.loop rust_analyzer.Grammar.Monad.while
    rust_analyzer.Grammar.Names.name_r rust_analyzer.Grammar.Names.name
    rust_analyzer.Grammar.Ops.nth rust_analyzer.Grammar.Ops.current rust_analyzer.Grammar.Ops.at
    rust_analyzer.Grammar.Ops.bump rust_analyzer.Grammar.Ops.eat rust_analyzer.Grammar.Ops.start
    rust_analyzer.Grammar.Ops.complete rust_analyzer.Grammar.Ops.nth_is
    rust_analyzer.Grammar.Ops.assert_at rust_analyzer.Grammar.Paths.opt_visibility
    rust_analyzer.Parser.Input.new rust_analyzer.Parser.Input.kind rust_analyzer.Parser.Impl.start
    rust_analyzer.Parser.Impl.complete rust_analyzer.Parser.Impl.error
    rust_analyzer.Parser.Impl.pure rust_analyzer.Parser.Impl.◌>>=◌ rust_analyzer.Parser.Api.expect
    rust_analyzer.Parser.Api.error rust_analyzer.Parser.Api.abandon
    rust_analyzer.Parser.Api.err_and_bump rust_analyzer.Parser.Impl.nth
    rust_analyzer.Parser.Impl.bump
mod_returns = refl

mod_lexed : tokenize no_xid mod_m ≡ some mod_tokens
unfolding tokenize rust_analyzer.Base.Loop.loop rust_analyzer.Lexer.Tokenize.next_token
    rust_analyzer.Lexer.Scan.scan_solid rust_analyzer.Lexer.Classes.is_ident_start
    rust_analyzer.Lexer.Strings.is_string_literal_start rust_analyzer.Base.Str.slice_from
    rust_analyzer.Base.Str.split_at rust_analyzer.Lexer.Ptr.into_len rust_analyzer.Base.Str.str_len
    rust_analyzer.Lexer.Scan.scan_ident rust_analyzer.Lexer.Ptr.bump
    rust_analyzer.Lexer.Classes.is_ident_continue rust_analyzer.Lexer.Ptr.bump_while from_keyword
    rust_analyzer.SyntaxKind.Text.from_char
mod_lexed = refl

mod_at_eof : into_events (Input.new mod_m mod_tokens) mod_last ≡ some mod_events
unfolding into_events Input.new Impl.nth Input.kind Input.collect
mod_at_eof = refl

root-ne-spent_example : root (grammar enough) (Input.new mod_m mod_tokens) Impl.new ≢ spent
root-ne-spent_example = root-ne-spent no_xid mod_m mod_tokens mod_lexed

parse_root-Run_example : Run (Input.new mod_m mod_tokens) Impl.new mod_last
parse_root-Run_example = parse_root-Run no_xid mod_m mod_tokens mod_last mod_lexed mod_returns

parse_root-BuildsText_example : BuildsText mod_m (parse_with mod_m mod_tokens parse_root)
parse_root-BuildsText_example =
    parse_root-BuildsText no_xid mod_m mod_tokens mod_last mod_events mod_lexed mod_returns
      mod_at_eof

parse_root-eof_example : Input.kind (Input.new mod_m mod_tokens) 3 ≡ SyntaxKind.eof
parse_root-eof_example = parse_root-eof (Input.new mod_m mod_tokens) Impl.new mod_last mod_returns

parse_root_within-BuildsText_example : BuildsText mod_m (parse_with mod_m mod_tokens parse_root)
parse_root_within-BuildsText_example =
    parse_root_within-BuildsText no_xid mod_m mod_tokens mod_last mod_lexed mod_returns
      (omega arith)
