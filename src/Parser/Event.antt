-- ===== src/Parser/Event.antt =====
-- The events of crates/ra_syntax/src/parser_impl/event.rs, which the parser leaves for the tree
-- builder.
use Prim.Native.String.{String}
use rust_analyzer.Base.{ℕ, Option, none}
use rust_analyzer.SyntaxKind
use rust_analyzer.SyntaxKind.{SyntaxKind}

pub data Event : Type 0 where
  start : SyntaxKind → Option ℕ → Event
  finish : Event
  token : SyntaxKind → ℕ → Event
  error : String → Event

-- Event::tombstone
abbrev pub tombstone : Event
tombstone = start SyntaxKind.tombstone none
