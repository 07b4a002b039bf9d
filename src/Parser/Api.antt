-- ===== src/Parser/Api.antt =====
-- crates/ra_syntax/src/parser_api.rs: what the grammar calls. The type system of Rust makes sure that
-- a marker is used once; the drop bomb of `Marker` (crate drop_bomb) is not modelled.
pub mod Lookahead
use Prim.Native.String.{String, ◌++◌}
use rust_analyzer.SyntaxKind.Info.{info_name}
use rust_analyzer.Base.{ℕ, Bool, true, false, ◌==◌, if◌then◌else◌, List, Option}
use rust_analyzer.SyntaxKind
use rust_analyzer.SyntaxKind.{SyntaxKind}
use rust_analyzer.TokenSet
use rust_analyzer.TokenSet.{TokenSet}
use rust_analyzer.Parser.Impl
use rust_analyzer.Parser.Impl.{Parse, pure, ◌>>=◌, ◌>>◌}
use rust_analyzer.Parser.Input.{ParserInput}

pub record Marker : Type 0 where
  pub pos : ℕ

pub record CompletedMarker : Type 0 where
  pub pos : ℕ
  pub kind : SyntaxKind

module _ (inp : ParserInput) where
  -- Parser::nth
  unfoldable pub nth : ℕ → Parse SyntaxKind
  nth n = Impl.nth inp n

  -- Parser::current
  unfoldable pub current : Parse SyntaxKind
  unfolding nth
  current = nth 0

  -- Parser::at
  unfoldable pub at : SyntaxKind → Parse Bool
  unfolding current
  at kind = do c ← current; pure (c == kind)

  -- Parser::at_ts
  unfoldable pub at_ts : TokenSet → Parse Bool
  unfolding current
  at_ts kinds = do c ← current; pure (TokenSet.contains kinds c)

  -- Parser::next2
  unfoldable pub next2 : Parse (Option (SyntaxKind × SyntaxKind))
  next2 = Impl.next2 inp

  -- Parser::next3
  unfoldable pub next3 : Parse (Option (SyntaxKind × SyntaxKind × SyntaxKind))
  next3 = Impl.next3 inp

  -- Parser::at_contextual_kw
  unfoldable pub at_contextual_kw : List ℕ → Parse Bool
  at_contextual_kw t = Impl.at_kw inp t

  -- Parser::bump_remap
  unfoldable pub bump_remap : SyntaxKind → Parse (Unit {0})
  bump_remap kind = Impl.bump_remap inp kind

  -- Parser::bump
  unfoldable pub bump : Parse (Unit {0})
  bump = Impl.bump inp

  -- Parser::eat
  unfoldable pub eat : SyntaxKind → Parse Bool
  unfolding at bump
  eat kind = do here ← at kind; if here then (do bump; pure true) else pure false

-- Parser::bump_compound
unfoldable pub bump_compound : SyntaxKind → ℕ → Parse (Unit {0})
bump_compound kind n = Impl.bump_compound kind n

-- Parser::error
unfoldable pub error : String → Parse (Unit {0})
error message = Impl.error message

-- Parser::start
unfoldable pub start : Parse Marker
start = do pos ← Impl.start; pure (record { pos = pos })

-- Marker::complete
unfoldable pub complete : Marker → SyntaxKind → Parse CompletedMarker
complete m kind = do Impl.complete m.pos kind; pure (record { pos = m.pos; kind = kind })

-- Marker::abandon
unfoldable pub abandon : Marker → Parse (Unit {0})
abandon m = Impl.abandon m.pos

-- CompletedMarker::precede
unfoldable pub precede : CompletedMarker → Parse Marker
precede m = do pos ← Impl.precede m.pos; pure (record { pos = pos })

-- CompletedMarker::kind
abbrev pub kind : CompletedMarker → SyntaxKind
kind m = m.kind

module _ (inp : ParserInput) where
  -- Parser::expect
  unfoldable pub expect : SyntaxKind → Parse Bool
  unfolding eat error
  expect kind = do
    eaten ← eat inp kind
    if eaten then pure true else (do error ("expected " ++ info_name kind); pure false)

module _ (inp : ParserInput) where
  -- Parser::err_recover
  unfoldable pub err_recover : String → TokenSet → Parse (Unit {0})
  unfolding at at_ts bump start complete error
  err_recover message recovery = do
    l ← at inp SyntaxKind.l_curly
    r ← (if l then pure true else at inp SyntaxKind.r_curly)
    t ← (if r then pure true else at_ts inp recovery)
    if t
        then error message
        else do m ← start; error message; bump inp; complete m SyntaxKind.error; pure tt

  -- Parser::err_and_bump
  unfoldable pub err_and_bump : String → Parse (Unit {0})
  unfolding err_recover
  err_and_bump message = err_recover message TokenSet.empty
