-- ===== src/Grammar/Heads.antt =====
-- The functions of crates/ra_syntax/src/grammar/ that call one other with a choice of its arguments.
use rust_analyzer.SyntaxKind
use rust_analyzer.Base.{Bool, false, if◌then◌else◌, true}
use rust_analyzer.Grammar.Entries.{BlockLike, Grammar}
use rust_analyzer.Grammar.Monad.{Gram, pure, ◌>>=◌, ◌>>◌}
use rust_analyzer.Grammar.Ops.{at, bump, complete, expect, start}
use rust_analyzer.Grammar.Sets.{pat_recovery_set}
use rust_analyzer.SyntaxKind.{SyntaxKind}

-- types::type_
unfoldable pub type_ : Grammar → Gram (Unit {0})
type_ g = g.type_with_bounds_cond true

-- types::type_no_bounds
unfoldable pub type_no_bounds : Grammar → Gram (Unit {0})
type_no_bounds g = g.type_with_bounds_cond false

-- types::ascription
unfoldable pub ascription : Grammar → Gram (Unit {0})
ascription g = do expect SyntaxKind.colon; type_ g

-- types::path_type
unfoldable pub path_type : Grammar → Gram (Unit {0})
path_type g = g.path_type_ true

-- patterns::pattern
unfoldable pub pattern_ : Grammar → Gram (Unit {0})
pattern_ g = g.pattern_r pat_recovery_set

-- expressions::expr
unfoldable pub expr : Grammar → Gram BlockLike
expr g = g.expr_bp (record { forbid_structs = false; prefer_stmt = false }) 1

-- expressions::expr_stmt
unfoldable pub expr_stmt : Grammar → Gram BlockLike
expr_stmt g = g.expr_bp (record { forbid_structs = false; prefer_stmt = true }) 1

-- expressions::expr_no_struct
unfoldable pub expr_no_struct : Grammar → Gram (Unit {0})
expr_no_struct g = do g.expr_bp (record { forbid_structs = true; prefer_stmt = false }) 1; pure tt

-- opt_fn_ret_type
unfoldable pub opt_fn_ret_type : Grammar → Gram Bool
opt_fn_ret_type g = do
  arrow ← at SyntaxKind.thin_arrow
  if arrow
      then (do m ← start; bump; type_ g; complete m SyntaxKind.ret_type; pure true)
      else pure false
