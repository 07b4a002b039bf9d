-- ===== src/Grammar/Names.antt =====
-- Names and recovery: the last functions of crates/ra_syntax/src/grammar.rs.
use Prim.Native.String.{String}
use rust_analyzer.Base.{true, ◌||◌, ◌==◌, if◌then◌else◌, Option, none, some}
use rust_analyzer.SyntaxKind
use rust_analyzer.TokenSet
use rust_analyzer.TokenSet.{TokenSet}
use rust_analyzer.Grammar.Monad.{Gram, pure, ◌>>=◌, ◌>>◌, when, while}
use rust_analyzer.Grammar.Ops.{
  current, at, bump, eat, error, err_recover, err_and_bump, start, complete, assert_at, before,
}
use rust_analyzer.Grammar.Entries.{Grammar}

-- name_r
unfoldable pub name_r : TokenSet → Gram (Unit {0})
name_r recovery = do
  ident ← at SyntaxKind.ident
  if ident
      then (do m ← start; bump; complete m SyntaxKind.name; pure tt)
      else err_recover "expected a name" recovery

-- name
unfoldable pub name : Gram (Unit {0})
name = name_r TokenSet.empty

-- name_ref
unfoldable pub name_ref : Gram (Unit {0})
name_ref = do
  ident ← at SyntaxKind.ident
  if ident
      then (do m ← start; bump; complete m SyntaxKind.name_ref; pure tt)
      else err_and_bump "expected identifier"

-- opt_alias
unfoldable pub opt_alias : Gram (Unit {0})
opt_alias = do
  as_kw ← at SyntaxKind.as_kw
  when as_kw (do m ← start; bump; name; complete m SyntaxKind.alias; pure tt)

-- abi
unfoldable pub abi : Gram (Unit {0})
abi = do
  assert_at SyntaxKind.extern_kw
  abi ← start
  bump
  kind ← current
  when (kind == SyntaxKind.string || kind == SyntaxKind.raw_string) bump
  complete abi SyntaxKind.abi
  pure tt

-- `if let Some(message) = message { p.error(message) }`
unfoldable pub error_opt : Option String → Gram (Unit {0})
error_opt none = pure tt
error_opt (some message) = error message

-- The function `go` of error_block.
unfoldable pub error_block_go : Grammar → Option String → Gram (Unit {0})
error_block_go g message = do
  assert_at SyntaxKind.l_curly
  m ← start
  error_opt message
  bump
  while g.fuel (before SyntaxKind.r_curly) (do
    kind ← current
    (if kind == SyntaxKind.l_curly then g.error_block none else bump)
    pure true)
  eat SyntaxKind.r_curly
  complete m SyntaxKind.error
  pure tt

-- error_block
unfoldable pub error_block : Grammar → String → Gram (Unit {0})
error_block g message = g.error_block (some message)
