-- ===== src/Grammar/WhereClauses.antt =====
-- The where clauses of crates/ra_syntax/src/grammar/type_params.rs.
use rust_analyzer.SyntaxKind
use rust_analyzer.Base.{false, if◌then◌else◌, true, ◌==◌}
use rust_analyzer.Grammar.Entries.{Grammar}
use rust_analyzer.Grammar.Monad.{Gram, and, not, or, pure, when, while, ◌>>=◌, ◌>>◌}
use rust_analyzer.Grammar.Ops.{at, bump, complete, current, error, expect, nth_is, start}
use rust_analyzer.Grammar.Paths.{is_path_start, path}
use rust_analyzer.Grammar.TypeParams.{bounds, for_binder, lifetime_bounds}
use rust_analyzer.SyntaxKind.{SyntaxKind}

-- where_predicate
unfoldable pub where_predicate : Grammar → Gram (Unit {0})
where_predicate g = do
  m ← start
  kind ← current
  if kind == SyntaxKind.lifetime
      then (do
        bump
        colon ← at SyntaxKind.colon
        (if colon then lifetime_bounds g else error "expected colon")
        complete m SyntaxKind.where_pred
        pure tt)
      else (do
        for_kw ← at SyntaxKind.for_kw
        when for_kw (for_binder g)
        path ← or is_path_start (at SyntaxKind.l_angle)
        (if path then g.path_type_ false else error "expected a type")
        colon ← at SyntaxKind.colon
        (if colon then bounds g else error "expected colon")
        complete m SyntaxKind.where_pred
        pure tt)

-- opt_where_clause
unfoldable pub opt_where_clause : Grammar → Gram (Unit {0})
opt_where_clause g = do
  here ← at SyntaxKind.where_kw
  when here (do
    m ← start
    bump
    while g.fuel
        (or is_path_start (
          or (nth_is 0 SyntaxKind.lifetime)
            (or (nth_is 0 SyntaxKind.for_kw) (nth_is 0 SyntaxKind.l_angle))))
        (do
          where_predicate g
          more ←
              and (not (nth_is 0 SyntaxKind.l_curly))
                (and (not (nth_is 0 SyntaxKind.semi)) (not (nth_is 0 SyntaxKind.eq)))
          when more (do expect SyntaxKind.comma; pure tt)
          pure true)
    complete m SyntaxKind.where_clause
    pure tt)
