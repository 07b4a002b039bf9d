-- ===== src/Lib.antt =====
-- rust-analyzer: the front half of crates/ra_syntax, from a text to the calls that build its tree.
--
-- A text is a list of code points. `tokenize` (crates/ra_syntax/src/lexer.rs) cuts it into tokens;
-- `ParserInput` (parser_impl/input.rs) drops whitespace and comments; the grammar (grammar.rs and
-- grammar/), written against `Parser` (parser_api.rs), reads them and leaves a flat list of events in
-- `ParserImpl` (parser_impl.rs); `EventProcessor` (parser_impl/event.rs) plays the events back against the raw
-- tokens, puts whitespace and comments back in, and calls a `Sink` that builds the tree.
--
-- The files, with the code they are about (below crates/ra_syntax/src):
--   SyntaxKind.antt and SyntaxKind/: syntax_kinds.rs and syntax_kinds/generated.rs. A kind is its
--     discriminant, since token_set.rs shifts by `kind as usize`; one constant to each variant.
--   TokenSet.antt: token_set.rs. A set is the number that its u128 holds.
--   Lexer.antt and Lexer/: lexer.rs and lexer/. `Ptr` is the text passed and the text to come. A
--     scan returns the kind and the pointer it leaves; `none` is a panic.
--   Parser/Input.antt, Impl.antt, Api.antt, ParseWith.antt: parser_impl/input.rs, parser_impl.rs and
--     parser_api.rs. An operation is a function from the state of the parser to its result and the
--     new state, and `none` is a panic (an `assert`, an `unreachable!` or an index out of range).
--   Parser/Event.antt, Sink.antt, Process.antt: parser_impl/event.rs. The sink is the list of the
--     calls that it gets.
--   StringLexing.antt and StringLexing/: string_lexing/parser.rs, the components of a literal.
--   Base.antt and Base/: lists, options, strings in UTF-8 and loops, shared by all of them.
--   Parser/Steps.antt: what a grammar can do, as a step relation on the state of the parser.
--   Base/Loop.antt is the loop that the lexer's scans are made of; Base/Str.antt has the byte offsets
--     and slices of `str`; Base/Bits.antt has the bits of machine words.
--   SyntaxKind/Reserved.antt, files named Within, Lossless, AtEof, Members, Kinds and Lookahead, and
--     those under Parser/Process and Parser/Steps hold proofs; Tests.antt and Grammar/Tests.antt have
--     runs at concrete inputs.
--
-- Loops. `Base.Loop.loop` runs a body as many rounds as a measure of the first state says, which is
-- the length of the text to come: `loop_eq` and `loop-keeps` show that this is enough for a body
-- under which it falls, and `tokenize` is shown to return. `follow` has as many rounds as there are
-- events, and is shown not to run out of them.
--
-- Numbers. Offsets are u32 and positions usize in the code; they are natural numbers here, so texts
-- are taken to be shorter than 4 GiB, as the code takes them to be. A shift of a u128 takes its
-- amount modulo 128, and a subtraction from zero wraps around, as in a release build.
--
-- The grammar. Grammar.antt and Grammar/ model grammar.rs and grammar/: a function that takes
-- `p: &mut Parser` is a `Gram` (Grammar/Monad.antt), which reads the input, changes the state, and
-- returns, panics, or runs out of fuel. Names, Heads: names, visibility and return types of
-- grammar.rs; Attributes; TypeArgs; Params; Paths; TypeParams, WhereClauses: type_params.rs; Types;
-- Patterns; Exprs, Expressions, Blocks: expressions.rs; Atoms, MatchArms: expressions/atom.rs; Items,
-- MaybeItems, Contents, Nominal, UseItems, Traits: items.rs and items/; Sets: the sets of kinds;
-- Entries: what the functions that call themselves through others take; Knot: these put together.
-- Grammar/Keeps/ proves what each function keeps, and Grammar/Lossless.antt and
-- Grammar/AtEof.antt what follows.
-- The fuel `enough` is the lookahead limit of `ParserImpl::nth`, plus two: each nested call and
-- each round of a loop looks ahead at least once, so a deeper run panics at that limit first.
--
-- Not modelled: the tables of the crate unicode_xid, an argument of the lexer; the tree itself,
-- which the crate rowan stores; the suffix of a literal and the iterators of string_lexing/string.rs;
-- the drop bombs of markers; and the other crates (ra_editor, ra_db, ra_hir, ra_analysis, ra_vfs, the
-- language server, tools).
pub mod Base
pub mod SyntaxKind
pub mod TokenSet
pub mod Lexer
pub mod Parser
pub mod Grammar
pub mod StringLexing
mod Tests
