-- ===== src/Grammar/Params.antt =====
-- crates/ra_syntax/src/grammar/params.rs.
use rust_analyzer.SyntaxKind
use rust_analyzer.Base.{Bool, false, if◌then◌else◌, suc, true, zero, ℕ, ◌&&◌, ◌==◌, ◌||◌}
use rust_analyzer.Grammar.Entries.{Grammar}
use rust_analyzer.Grammar.Heads.{ascription, pattern_, type_}
use rust_analyzer.Grammar.Monad.{Gram, and, or, pure, when, while, ◌>>=◌, ◌>>◌}
use rust_analyzer.Grammar.Ops.{
  assert_at, at, at_ts, before, bump, comma_unless_at, complete, current, eat, error, expect, nth,
  nth_is, start,
}
use rust_analyzer.Grammar.Sets.{value_parameter_first}
use rust_analyzer.Parser.Api.{Marker}
use rust_analyzer.SyntaxKind.{SyntaxKind}

-- Flavor
pub data Flavor : Type 0 where
  optional_type optional_pattern normal : Flavor

-- Flavor::type_required
unfoldable pub type_required : Flavor → Bool
type_required optional_type = false
type_required optional_pattern = true
type_required normal = true

-- A parameter with a pattern.
unfoldable pub pattern_parameter : Grammar → Bool → Gram (Unit {0})
pattern_parameter g required = do
  pattern_ g
  typed ← or (at SyntaxKind.colon) (pure required)
  when typed (ascription g)

-- What value_parameter does for a flavor.
unfoldable pub value_parameter_of : Grammar → Flavor → Gram (Unit {0})
value_parameter_of g optional_type = pattern_parameter g false
value_parameter_of g normal = pattern_parameter g true
value_parameter_of g optional_pattern = do
  la0 ← current
  la1 ← nth 1
  la2 ← nth 2
  la3 ← nth 3
  if la0 == SyntaxKind.ident && la1 == SyntaxKind.colon
        || la0 == SyntaxKind.amp && la1 == SyntaxKind.ident && la2 == SyntaxKind.colon
        || la0 == SyntaxKind.amp
          && la1 == SyntaxKind.mut_kw
          && la2 == SyntaxKind.ident
          && la3 == SyntaxKind.colon
      then (do pattern_ g; ascription g)
      else type_ g

-- value_parameter
unfoldable pub value_parameter : Grammar → Flavor → Gram (Unit {0})
value_parameter g flavor = do
  m ← start
  value_parameter_of g flavor
  complete m SyntaxKind.param
  pure tt

-- The number of tokens of a `self` parameter with a reference; 0 for `return`.
unfoldable pub self_tokens : SyntaxKind → SyntaxKind → SyntaxKind → SyntaxKind → ℕ
self_tokens la0 la1 la2 la3 =
    if la0 == SyntaxKind.amp && la1 == SyntaxKind.self_kw
    then 2
    else if la0 == SyntaxKind.amp && la1 == SyntaxKind.mut_kw && la2 == SyntaxKind.self_kw
    then 3
    else if la0 == SyntaxKind.amp && la1 == SyntaxKind.lifetime && la2 == SyntaxKind.self_kw
    then 3
    else if la0 == SyntaxKind.amp
        && la1 == SyntaxKind.lifetime
        && la2 == SyntaxKind.mut_kw
        && la3 == SyntaxKind.self_kw
    then 4
    else 0

-- `for _ in 0..n { p.bump(); }`
unfoldable pub bump_times : ℕ → Gram (Unit {0})
bump_times zero = pure tt
bump_times (suc n) = do bump; bump_times n

-- The end of opt_self_param.
unfoldable pub self_param_end : Marker → Gram (Unit {0})
self_param_end m = do complete m SyntaxKind.self_param; comma_unless_at SyntaxKind.r_paren

-- opt_self_param
unfoldable pub opt_self_param : Grammar → Gram (Unit {0})
opt_self_param g = do
  self ← or (at SyntaxKind.self_kw) (and (at SyntaxKind.mut_kw) (nth_is 1 SyntaxKind.self_kw))
  if self
      then (do
        m ← start
        eat SyntaxKind.mut_kw
        eat SyntaxKind.self_kw
        typed ← at SyntaxKind.colon
        when typed (ascription g)
        self_param_end m)
      else (do
        la1 ← nth 1
        la2 ← nth 2
        la3 ← nth 3
        la0 ← current
        if self_tokens la0 la1 la2 la3 == 0
            then pure tt
            else (do m ← start; bump_times (self_tokens la0 la1 la2 la3); self_param_end m))

-- list_
unfoldable pub list_ : Grammar → Flavor → SyntaxKind → SyntaxKind → Gram (Unit {0})
list_ g flavor bra ket = do
  assert_at bra
  m ← start
  bump
  when (type_required flavor) (opt_self_param g)
  while g.fuel (before ket) (do
    first ← at_ts value_parameter_first
    if first
        then (do value_parameter g flavor; comma_unless_at ket; pure true)
        else (do error "expected value parameter"; pure false))
  expect ket
  complete m SyntaxKind.param_list
  pure tt

-- param_list
unfoldable pub param_list : Grammar → Gram (Unit {0})
param_list g = list_ g normal SyntaxKind.l_paren SyntaxKind.r_paren

-- param_list_opt_patterns
unfoldable pub param_list_opt_patterns : Grammar → Gram (Unit {0})
param_list_opt_patterns g = list_ g optional_pattern SyntaxKind.l_paren SyntaxKind.r_paren

-- param_list_opt_types
unfoldable pub param_list_opt_types : Grammar → Gram (Unit {0})
param_list_opt_types g = list_ g optional_type SyntaxKind.pipe SyntaxKind.pipe
