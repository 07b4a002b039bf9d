-- ===== src/Grammar/TypeArgs.antt =====
-- crates/ra_syntax/src/grammar/type_args.rs.
use rust_analyzer.Base
use rust_analyzer.SyntaxKind
use rust_analyzer.Base.{Bool, false, if◌then◌else◌, ◌&&◌, ◌==◌}
use rust_analyzer.Grammar.Entries.{Grammar}
use rust_analyzer.Grammar.Heads.{type_}
use rust_analyzer.Grammar.Monad.{Gram, or, pure, while, ◌>>=◌, ◌>>◌}
use rust_analyzer.Grammar.Names.{name_ref}
use rust_analyzer.Grammar.Ops.{at, before, bump, complete, current, expect, nth, nth_is, start}
use rust_analyzer.Parser.Api.{Marker}
use rust_analyzer.SyntaxKind.{SyntaxKind}

-- type_arg
unfoldable pub type_arg : Grammar → Gram (Unit {0})
type_arg g = do
  m ← start
  kind ← current
  if kind == SyntaxKind.lifetime
      then (do bump; complete m SyntaxKind.lifetime_arg; pure tt)
      else (do
        assoc ← (if kind == SyntaxKind.ident then nth_is 1 SyntaxKind.eq else pure false)
        if assoc
            then (do name_ref; bump; type_ g; complete m SyntaxKind.assoc_type_arg; pure tt)
            else (do type_ g; complete m SyntaxKind.type_arg; pure tt))

-- What opt_type_arg_list does after the opening angle.
unfoldable pub type_arg_list : Grammar → Marker → Gram (Unit {0})
type_arg_list g m = do
  while g.fuel (before SyntaxKind.r_angle)
      (do type_arg g; or (at SyntaxKind.r_angle) (expect SyntaxKind.comma))
  expect SyntaxKind.r_angle
  complete m SyntaxKind.type_arg_list
  pure tt

-- opt_type_arg_list
unfoldable pub opt_type_arg_list : Grammar → Bool → Gram (Unit {0})
opt_type_arg_list g colon_colon_required = do
  la0 ← nth 0
  la1 ← nth 1
  if la0 == SyntaxKind.coloncolon && la1 == SyntaxKind.l_angle
      then (do m ← start; bump; bump; type_arg_list g m)
      else if Base.not colon_colon_required && la0 == SyntaxKind.l_angle
      then (do m ← start; bump; type_arg_list g m)
      else pure tt
