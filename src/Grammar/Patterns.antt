-- ===== src/Grammar/Patterns.antt =====
-- crates/ra_syntax/src/grammar/patterns.rs, and literal of grammar/expressions/atom.rs.
use rust_analyzer.Base
use rust_analyzer.SyntaxKind
use rust_analyzer.Base.{Bool, Option, false, if◌then◌else◌, none, some, true, ◌&&◌, ◌==◌, ◌||◌}
use rust_analyzer.Grammar.Entries.{Grammar}
use rust_analyzer.Grammar.Heads.{pattern_}
use rust_analyzer.Grammar.Monad.{Gram, and, assert, or, pure, when, while, ◌>>=◌, ◌>>◌}
use rust_analyzer.Grammar.Names.{error_block, name}
use rust_analyzer.Grammar.Ops.{
  assert_at, at, at_ts, before, bump, comma_unless_at, complete, current, eat, err_recover, error,
  expect, nth, nth_is, precede, start,
}
use rust_analyzer.Grammar.Paths.{expr_path, is_path_start, path}
use rust_analyzer.Grammar.Sets.{literal_first, pattern_first}
use rust_analyzer.Parser.Api.{CompletedMarker}
use rust_analyzer.SyntaxKind.{SyntaxKind}
use rust_analyzer.TokenSet.{TokenSet}

-- atom::literal
unfoldable pub literal : Gram (Option CompletedMarker)
literal = do
  here ← at_ts literal_first
  if here then (do m ← start; bump; c ← complete m SyntaxKind.literal; pure (some c)) else pure none

-- bind_pat
unfoldable pub bind_pat : Grammar → Bool → Gram CompletedMarker
bind_pat g with_at = do
  m ← start
  eat SyntaxKind.ref_kw
  eat SyntaxKind.mut_kw
  name
  at_sign ← (if with_at then eat SyntaxKind.at else pure false)
  when at_sign (pattern_ g)
  complete m SyntaxKind.bind_pat

-- pat_list
unfoldable pub pat_list : Grammar → SyntaxKind → Gram (Unit {0})
pat_list g ket = while g.fuel (before ket) (do
  kind ← current
  if kind == SyntaxKind.dotdot then (do bump; comma_unless_at ket; pure true) else (do
    first ← at_ts pattern_first
    if first
        then (do pattern_ g; comma_unless_at ket; pure true)
        else (do error "expected a pattern"; pure false)))

-- tuple_pat_fields
unfoldable pub tuple_pat_fields : Grammar → Gram (Unit {0})
tuple_pat_fields g = do
  assert_at SyntaxKind.l_paren
  bump
  pat_list g SyntaxKind.r_paren
  expect SyntaxKind.r_paren
  pure tt

-- field_pat_list
unfoldable pub field_pat_list : Grammar → Gram (Unit {0})
field_pat_list g = do
  assert_at SyntaxKind.l_curly
  m ← start
  bump
  while g.fuel (before SyntaxKind.r_curly) (do
    kind ← current
    (if kind == SyntaxKind.dotdot then bump else (do
      colon ← (if kind == SyntaxKind.ident then nth_is 1 SyntaxKind.colon else pure false)
      if colon
          then (do bump; bump; pattern_ g)
          else if kind == SyntaxKind.l_curly
          then error_block g "expected ident"
          else (do bind_pat g false; pure tt)))
    comma_unless_at SyntaxKind.r_curly
    pure true)
  expect SyntaxKind.r_curly
  complete m SyntaxKind.field_pat_list
  pure tt

-- path_pat
unfoldable pub path_pat : Grammar → Gram CompletedMarker
path_pat g = do
  here ← is_path_start
  assert here
  m ← start
  expr_path g
  kind ← current
  if kind == SyntaxKind.l_paren
      then (do tuple_pat_fields g; complete m SyntaxKind.tuple_struct_pat)
      else if kind == SyntaxKind.l_curly
      then (do field_pat_list g; complete m SyntaxKind.struct_pat)
      else complete m SyntaxKind.path_pat

-- placeholder_pat
unfoldable pub placeholder_pat : Gram CompletedMarker
placeholder_pat = do
  assert_at SyntaxKind.underscore
  m ← start
  bump
  complete m SyntaxKind.placeholder_pat

-- ref_pat
unfoldable pub ref_pat : Grammar → Gram CompletedMarker
ref_pat g = do
  assert_at SyntaxKind.amp
  m ← start
  bump
  eat SyntaxKind.mut_kw
  pattern_ g
  complete m SyntaxKind.ref_pat

-- tuple_pat
unfoldable pub tuple_pat : Grammar → Gram CompletedMarker
tuple_pat g = do
  assert_at SyntaxKind.l_paren
  m ← start
  tuple_pat_fields g
  complete m SyntaxKind.tuple_pat

-- slice_pat
unfoldable pub slice_pat : Grammar → Gram CompletedMarker
slice_pat g = do
  assert_at SyntaxKind.l_brack
  m ← start
  bump
  pat_list g SyntaxKind.r_brack
  expect SyntaxKind.r_brack
  complete m SyntaxKind.slice_pat

-- What atom_pat does after it has looked for a literal.
unfoldable pub literal_or_pat :
    Grammar → TokenSet → SyntaxKind → Option CompletedMarker → Gram (Option CompletedMarker)
literal_or_pat g recovery_set la0 (some m) = pure (some m)
literal_or_pat g recovery_set la0 none =
    if la0 == SyntaxKind.underscore
    then (do m ← placeholder_pat; pure (some m))
    else if la0 == SyntaxKind.amp
    then (do m ← ref_pat g; pure (some m))
    else if la0 == SyntaxKind.l_paren
    then (do m ← tuple_pat g; pure (some m))
    else if la0 == SyntaxKind.l_brack
    then (do m ← slice_pat g; pure (some m))
    else (do err_recover "expected pattern" recovery_set; pure none)

-- atom_pat
unfoldable pub atom_pat : Grammar → TokenSet → Gram (Option CompletedMarker)
atom_pat g recovery_set = do
  la0 ← nth 0
  la1 ← nth 1
  if la0 == SyntaxKind.ref_kw
        || la0 == SyntaxKind.mut_kw
        || la0 == SyntaxKind.ident
          && Base.not (
              la1 == SyntaxKind.coloncolon
              || la1 == SyntaxKind.l_paren
              || la1 == SyntaxKind.l_curly)
      then (do m ← bind_pat g true; pure (some m))
      else (do
        path ← is_path_start
        if path then (do m ← path_pat g; pure (some m)) else (do
          negative ←
              and (at SyntaxKind.minus)
                (or (nth_is 1 SyntaxKind.int_number) (nth_is 1 SyntaxKind.float_number))
          when negative bump
          found ← literal
          literal_or_pat g recovery_set la0 found))

-- What pattern_r does after its first pattern.
unfoldable pub range_pat_of : Grammar → TokenSet → Option CompletedMarker → Gram (Unit {0})
range_pat_of g recovery_set none = pure tt
range_pat_of g recovery_set (some lhs) = do
  dots ← or (at SyntaxKind.dotdotdot) (or (at SyntaxKind.dotdoteq) (at SyntaxKind.dotdot))
  if dots
      then (do
        m ← precede lhs
        bump
        atom_pat g recovery_set
        complete m SyntaxKind.range_pat
        pure tt)
      else pure tt

-- pattern_r
unfoldable pub pattern_r : Grammar → TokenSet → Gram (Unit {0})
pattern_r g recovery_set = do lhs ← atom_pat g recovery_set; range_pat_of g recovery_set lhs
