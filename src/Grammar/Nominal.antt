-- ===== src/Grammar/Nominal.antt =====
-- crates/ra_syntax/src/grammar/items/nominal.rs.
use rust_analyzer.SyntaxKind
use rust_analyzer.Base.{Bool, [], false, if◌then◌else◌, true, ◌&&◌, ◌==◌, ◌∷◌}
use rust_analyzer.Grammar.Attributes.{outer_attributes}
use rust_analyzer.Grammar.Entries.{Grammar}
use rust_analyzer.Grammar.Heads.{expr, type_}
use rust_analyzer.Grammar.Monad.{Gram, assert, or, pure, when, while, ◌>>=◌, ◌>>◌}
use rust_analyzer.Grammar.Names.{error_block, name, name_r}
use rust_analyzer.Grammar.Ops.{
  abandon, assert_at, at, at_contextual_kw, at_neither, at_ts, before, bump, bump_remap,
  comma_unless_at, complete, current, err_and_bump, error, expect, start,
}
use rust_analyzer.Grammar.Paths.{opt_visibility}
use rust_analyzer.Grammar.Sets.{item_recovery_set, type_first}
use rust_analyzer.Grammar.TypeParams.{opt_type_param_list}
use rust_analyzer.Grammar.WhereClauses.{opt_where_clause}
use rust_analyzer.SyntaxKind.{SyntaxKind}

-- named_field_def
unfoldable pub named_field_def : Grammar → Gram (Unit {0})
named_field_def g = do
  m ← start
  outer_attributes g
  opt_visibility g
  ident ← at SyntaxKind.ident
  if ident
      then (do
        name
        expect SyntaxKind.colon
        type_ g
        complete m SyntaxKind.named_field_def
        pure tt)
      else (do abandon m; err_and_bump "expected field declaration")

-- named_field_def_list
unfoldable pub named_field_def_list : Grammar → Gram (Unit {0})
named_field_def_list g = do
  assert_at SyntaxKind.l_curly
  m ← start
  bump
  while g.fuel (at_neither SyntaxKind.r_curly SyntaxKind.eof) (do
    curly ← at SyntaxKind.l_curly
    if curly
        then (do error_block g "expected field"; pure true)
        else (do named_field_def g; comma_unless_at SyntaxKind.r_curly; pure true))
  expect SyntaxKind.r_curly
  complete m SyntaxKind.named_field_def_list
  pure tt

-- A round of pos_field_list.
unfoldable pub pos_field : Grammar → Gram Bool
pos_field g = do
  m ← start
  opt_visibility g
  first ← at_ts type_first
  if first
      then (do
        type_ g
        complete m SyntaxKind.pos_field
        comma_unless_at SyntaxKind.r_paren
        pure true)
      else (do error "expected a type"; complete m SyntaxKind.error; pure false)

-- pos_field_list
unfoldable pub pos_field_list : Grammar → Gram (Unit {0})
pos_field_list g = do
  assert_at SyntaxKind.l_paren
  m ← start
  paren ← expect SyntaxKind.l_paren
  when paren (do
    while g.fuel (at_neither SyntaxKind.r_paren SyntaxKind.eof) (pos_field g)
    expect SyntaxKind.r_paren
    complete m SyntaxKind.pos_field_list
    pure tt)

-- What struct_def does at its fields.
unfoldable pub struct_fields : Grammar → SyntaxKind → SyntaxKind → Gram (Unit {0})
struct_fields g kind next =
    if next == SyntaxKind.where_kw
    then (do
      opt_where_clause g
      after ← current
      if after == SyntaxKind.semi
          then bump
          else if after == SyntaxKind.l_curly
          then named_field_def_list g
          else error "expected `;` or `{`")
    else if next == SyntaxKind.semi && kind == SyntaxKind.struct_kw
    then bump
    else if next == SyntaxKind.l_curly
    then named_field_def_list g
    else if next == SyntaxKind.l_paren && kind == SyntaxKind.struct_kw
    then (do pos_field_list g; expect SyntaxKind.semi; pure tt)
    else if kind == SyntaxKind.struct_kw
    then error "expected `;`, `{`, or `(`"
    else error "expected `{`"

-- struct_def
unfoldable pub struct_def : Grammar → SyntaxKind → Gram (Unit {0})
struct_def g kind = do
  here ← or (at SyntaxKind.struct_kw) (at_contextual_kw (b'u' ∷ b'n' ∷ b'i' ∷ b'o' ∷ b'n' ∷ []))
  assert here
  bump_remap kind
  name_r item_recovery_set
  opt_type_param_list g
  next ← current
  struct_fields g kind next

-- A variant of enum_variant_list.
unfoldable pub enum_variant : Grammar → Gram (Unit {0})
enum_variant g = do
  var ← start
  outer_attributes g
  ident ← at SyntaxKind.ident
  if ident
      then (do
        name
        kind ← current
        (if kind == SyntaxKind.l_curly
            then named_field_def_list g
            else if kind == SyntaxKind.l_paren
            then pos_field_list g
            else if kind == SyntaxKind.eq
            then (do bump; expr g; pure tt)
            else pure tt)
        complete var SyntaxKind.enum_variant
        comma_unless_at SyntaxKind.r_curly)
      else (do
        abandon var
        err_and_bump "expected enum variant"
        comma_unless_at SyntaxKind.r_curly)

-- enum_variant_list
unfoldable pub enum_variant_list : Grammar → Gram (Unit {0})
enum_variant_list g = do
  assert_at SyntaxKind.l_curly
  m ← start
  bump
  while g.fuel (before SyntaxKind.r_curly) (do
    curly ← at SyntaxKind.l_curly
    if curly
        then (do error_block g "expected enum variant"; pure true)
        else (do enum_variant g; pure true))
  expect SyntaxKind.r_curly
  complete m SyntaxKind.enum_variant_list
  pure tt

-- enum_def
unfoldable pub enum_def : Grammar → Gram (Unit {0})
enum_def g = do
  assert_at SyntaxKind.enum_kw
  bump
  name_r item_recovery_set
  opt_type_param_list g
  opt_where_clause g
  curly ← at SyntaxKind.l_curly
  if curly then enum_variant_list g else error "expected `{`"
