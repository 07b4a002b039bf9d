-- ===== src/Parser/Sink.antt =====
-- The calls that the trait `Sink` of crates/ra_syntax/src/parser_impl.rs receives, of which the
-- builder of crates/ra_syntax/src/yellow/builder.rs makes a tree with the crate rowan.
use Prim.Native.String.{String}
use rust_analyzer.Base.{ℕ, List}
use rust_analyzer.SyntaxKind.{SyntaxKind}

-- The calls of the trait `Sink`; the last one, `finish`, comes after them. An error has its offset.
pub data SinkCall : Type 0 where
  leaf : SyntaxKind → List ℕ → SinkCall
  start_branch : SyntaxKind → SinkCall
  finish_branch : SinkCall
  error : String → ℕ → SinkCall
