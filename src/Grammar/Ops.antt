-- ===== src/Grammar/Ops.antt =====
-- crates/ra_syntax/src/parser_api.rs, as the grammar uses it.
use Prim.Native.String.{String}
use rust_analyzer.Base.{ℕ, Bool, List, Option, ◌==◌, if◌then◌else◌}
use rust_analyzer.SyntaxKind
use rust_analyzer.SyntaxKind.{SyntaxKind}
use rust_analyzer.TokenSet.{TokenSet}
use rust_analyzer.Parser.Api
use rust_analyzer.Parser.Api.{Marker, CompletedMarker}
use rust_analyzer.Grammar.Monad.{Gram, pure, ◌>>=◌, ◌>>◌, lift, assert, and, not}

unfoldable pub nth : ℕ → Gram SyntaxKind
nth n = lift λ inp. Api.nth inp n

unfoldable pub current : Gram SyntaxKind
current = lift λ inp. Api.current inp

unfoldable pub at : SyntaxKind → Gram Bool
at kind = lift λ inp. Api.at inp kind

unfoldable pub at_ts : TokenSet → Gram Bool
at_ts kinds = lift λ inp. Api.at_ts inp kinds

unfoldable pub next2 : Gram (Option (SyntaxKind × SyntaxKind))
next2 = lift λ inp. Api.next2 inp

unfoldable pub next3 : Gram (Option (SyntaxKind × SyntaxKind × SyntaxKind))
next3 = lift λ inp. Api.next3 inp

unfoldable pub at_contextual_kw : List ℕ → Gram Bool
at_contextual_kw t = lift λ inp. Api.at_contextual_kw inp t

unfoldable pub bump : Gram (Unit {0})
bump = lift λ inp. Api.bump inp

unfoldable pub bump_remap : SyntaxKind → Gram (Unit {0})
bump_remap kind = lift λ inp. Api.bump_remap inp kind

unfoldable pub bump_compound : SyntaxKind → ℕ → Gram (Unit {0})
bump_compound kind n = lift λ inp. Api.bump_compound kind n

unfoldable pub error : String → Gram (Unit {0})
error message = lift λ inp. Api.error message

unfoldable pub eat : SyntaxKind → Gram Bool
eat kind = lift λ inp. Api.eat inp kind

unfoldable pub expect : SyntaxKind → Gram Bool
expect kind = lift λ inp. Api.expect inp kind

unfoldable pub err_recover : String → TokenSet → Gram (Unit {0})
err_recover message recovery = lift λ inp. Api.err_recover inp message recovery

unfoldable pub err_and_bump : String → Gram (Unit {0})
err_and_bump message = lift λ inp. Api.err_and_bump inp message

unfoldable pub start : Gram Marker
start = lift λ inp. Api.start

unfoldable pub complete : Marker → SyntaxKind → Gram CompletedMarker
complete m kind = lift λ inp. Api.complete m kind

unfoldable pub abandon : Marker → Gram (Unit {0})
abandon m = lift λ inp. Api.abandon m

unfoldable pub precede : CompletedMarker → Gram Marker
precede m = lift λ inp. Api.precede m

-- `p.nth(n) == kind`
unfoldable pub nth_is : ℕ → SyntaxKind → Gram Bool
nth_is n kind = do k ← nth n; pure (k == kind)

-- `assert!(p.at(kind))`
unfoldable pub assert_at : SyntaxKind → Gram (Unit {0})
assert_at kind = do here ← at kind; assert here

-- `!p.at(first) && !p.at(second)`
unfoldable pub at_neither : SyntaxKind → SyntaxKind → Gram Bool
at_neither first second = and (not (at first)) (not (at second))

-- `!p.at(EOF) && !p.at(ket)`
unfoldable pub before : SyntaxKind → Gram Bool
before ket = at_neither SyntaxKind.eof ket

-- `if !p.at(ket) { p.expect(COMMA); }`
unfoldable pub comma_unless_at : SyntaxKind → Gram (Unit {0})
comma_unless_at ket = do
  here ← at ket
  if here then pure tt else (do expect SyntaxKind.comma; pure tt)
