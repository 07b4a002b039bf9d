-- ===== src/Grammar/Types.antt =====
-- crates/ra_syntax/src/grammar/types.rs.
use rust_analyzer.Base
use rust_analyzer.SyntaxKind
use rust_analyzer.Base.{Bool, false, if◌then◌else◌, true, ℕ, ◌%◌, ◌&&◌, ◌+◌, ◌==◌, ◌^◌, ◌||◌}
use rust_analyzer.Base.Loop.{Flow, again, stop}
use rust_analyzer.Grammar.Entries.{Grammar}
use rust_analyzer.Grammar.Heads.{expr, opt_fn_ret_type, type_, type_no_bounds}
use rust_analyzer.Grammar.Monad.{Gram, assert, loop, or, pure, when, ◌>>=◌, ◌>>◌}
use rust_analyzer.Grammar.Names.{abi}
use rust_analyzer.Grammar.Ops.{
  abandon, assert_at, at, before, bump, complete, current, eat, err_recover, error, expect, start,
}
use rust_analyzer.Grammar.Params.{param_list_opt_patterns}
use rust_analyzer.Grammar.Paths.{is_path_start, path, type_path}
use rust_analyzer.Grammar.Sets.{type_recovery_set}
use rust_analyzer.Grammar.TypeParams.{bounds_without_colon, for_binder}
use rust_analyzer.SyntaxKind.{SyntaxKind}

-- The number of types seen, and whether a comma ends them.
unfoldable pub paren_type_round : Grammar → ℕ × Bool → Gram (Flow (ℕ × Bool) (ℕ × Bool))
paren_type_round g (n_types, trailing_comma) = do
  more ← before SyntaxKind.r_paren
  if more
      then (do
        type_ g
        comma ← eat SyntaxKind.comma
        if comma
            then pure (again ((n_types + 1) % 2 ^ 32, true))
            else pure (stop ((n_types + 1) % 2 ^ 32, false)))
      else pure (stop (n_types, trailing_comma))

-- paren_or_tuple_type
unfoldable pub paren_or_tuple_type : Grammar → Gram (Unit {0})
paren_or_tuple_type g = do
  assert_at SyntaxKind.l_paren
  m ← start
  bump
  seen ← loop g.fuel (paren_type_round g) (0, false)
  expect SyntaxKind.r_paren
  complete m
      (if seen.0 == 1 && Base.not seen.1 then SyntaxKind.paren_type else SyntaxKind.tuple_type)
  pure tt

-- never_type
unfoldable pub never_type : Gram (Unit {0})
never_type = do
  assert_at SyntaxKind.excl
  m ← start
  bump
  complete m SyntaxKind.never_type
  pure tt

-- pointer_type
unfoldable pub pointer_type : Grammar → Gram (Unit {0})
pointer_type g = do
  assert_at SyntaxKind.star
  m ← start
  bump
  kind ← current
  (if kind == SyntaxKind.mut_kw || kind == SyntaxKind.const_kw
      then bump
      else error
          "expected mut or const in raw pointer type (use `*mut T` or `*const T` as appropriate)")
  type_no_bounds g
  complete m SyntaxKind.pointer_type
  pure tt

-- array_or_slice_type
unfoldable pub array_or_slice_type : Grammar → Gram (Unit {0})
array_or_slice_type g = do
  assert_at SyntaxKind.l_brack
  m ← start
  bump
  type_ g
  kind ← current
  if kind == SyntaxKind.r_brack
      then (do bump; complete m SyntaxKind.slice_type; pure tt)
      else if kind == SyntaxKind.semi
      then (do bump; expr g; expect SyntaxKind.r_brack; complete m SyntaxKind.array_type; pure tt)
      else (do error "expected `;` or `]`"; complete m SyntaxKind.slice_type; pure tt)

-- reference_type
unfoldable pub reference_type : Grammar → Gram (Unit {0})
reference_type g = do
  assert_at SyntaxKind.amp
  m ← start
  bump
  eat SyntaxKind.lifetime
  eat SyntaxKind.mut_kw
  type_no_bounds g
  complete m SyntaxKind.reference_type
  pure tt

-- placeholder_type
unfoldable pub placeholder_type : Gram (Unit {0})
placeholder_type = do
  assert_at SyntaxKind.underscore
  m ← start
  bump
  complete m SyntaxKind.placeholder_type
  pure tt

-- fn_pointer_type
unfoldable pub fn_pointer_type : Grammar → Gram (Unit {0})
fn_pointer_type g = do
  m ← start
  eat SyntaxKind.unsafe_kw
  extern_kw ← at SyntaxKind.extern_kw
  when extern_kw abi
  fn_kw ← eat SyntaxKind.fn_kw
  if fn_kw
      then (do
        paren ← at SyntaxKind.l_paren
        (if paren then param_list_opt_patterns g else error "expected parameters")
        opt_fn_ret_type g
        complete m SyntaxKind.fn_pointer_type
        pure tt)
      else (do abandon m; error "expected `fn`")

-- for_type
unfoldable pub for_type : Grammar → Gram (Unit {0})
for_type g = do
  assert_at SyntaxKind.for_kw
  m ← start
  for_binder g
  kind ← current
  (if kind == SyntaxKind.fn_kw || kind == SyntaxKind.unsafe_kw || kind == SyntaxKind.extern_kw
      then fn_pointer_type g
      else (do path ← is_path_start; if path then g.path_type_ false else error "expected a path"))
  complete m SyntaxKind.for_type
  pure tt

-- impl_trait_type
unfoldable pub impl_trait_type : Grammar → Gram (Unit {0})
impl_trait_type g = do
  assert_at SyntaxKind.impl_kw
  m ← start
  bump
  bounds_without_colon g
  complete m SyntaxKind.impl_trait_type
  pure tt

-- dyn_trait_type
unfoldable pub dyn_trait_type : Grammar → Gram (Unit {0})
dyn_trait_type g = do
  assert_at SyntaxKind.dyn_kw
  m ← start
  bump
  bounds_without_colon g
  complete m SyntaxKind.dyn_trait_type
  pure tt

-- path_type_
unfoldable pub path_type_ : Grammar → Bool → Gram (Unit {0})
path_type_ g allow_bounds = do
  here ← or is_path_start (at SyntaxKind.l_angle)
  assert here
  m ← start
  type_path g
  plus ← (if allow_bounds then eat SyntaxKind.plus else pure false)
  when plus (bounds_without_colon g)
  complete m SyntaxKind.path_type
  pure tt

-- The last arms of type_with_bounds_cond.
unfoldable pub named_type : Grammar → Bool → SyntaxKind → Gram (Unit {0})
named_type g allow_bounds kind =
    if kind == SyntaxKind.for_kw
    then g.for_type
    else if kind == SyntaxKind.impl_kw
    then impl_trait_type g
    else if kind == SyntaxKind.dyn_kw
    then dyn_trait_type g
    else if kind == SyntaxKind.l_angle
    then g.path_type_ allow_bounds
    else (do
      path ← is_path_start
      if path then g.path_type_ allow_bounds else err_recover "expected type" type_recovery_set)

-- type_with_bounds_cond
unfoldable pub type_with_bounds_cond : Grammar → Bool → Gram (Unit {0})
type_with_bounds_cond g allow_bounds = do
  kind ← current
  if kind == SyntaxKind.l_paren
      then paren_or_tuple_type g
      else if kind == SyntaxKind.excl
      then never_type
      else if kind == SyntaxKind.star
      then pointer_type g
      else if kind == SyntaxKind.l_brack
      then array_or_slice_type g
      else if kind == SyntaxKind.amp
      then reference_type g
      else if kind == SyntaxKind.underscore
      then placeholder_type
      else if kind == SyntaxKind.fn_kw
          || kind == SyntaxKind.unsafe_kw
          || kind == SyntaxKind.extern_kw
      then fn_pointer_type g
      else named_type g allow_bounds kind
