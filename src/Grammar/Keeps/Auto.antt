-- ===== src/Grammar/Keeps/Auto.antt =====
-- The rules by which `search` proves what a function of the grammar keeps
-- (crates/ra_syntax/src/grammar/).
use rust_analyzer.Grammar.Keeps.Facts.{has_below, has_alone, has_later, forgets_none, forgets_one}
use rust_analyzer.Grammar.Keeps.Rules.{
  Keeps-pure, has_none, has_one, Keeps-if, Keeps-then, Keeps-fresh, Keeps-completed, Keeps-maybe,
  Keeps-last, Keeps-unreachable, Spends-then, Spends-completed, Spends-maybe, Spends-last, Call-if,
  Call-pure, Call-assert, Call-when, Call-or, Call-and, Call-not, Spend-or, Spend-and, Spend-not,
  Call-Spend,
}
use rust_analyzer.Grammar.Keeps.Loops.{Spend-while, Spend-loop, Keeps-loop}
use rust_analyzer.Grammar.Keeps.Calls.{
  Spend-nth, Spend-current, Spend-at, Spend-at_ts, Spend-bump, Spend-bump_remap, Call-error,
  Spend-eat, Spend-expect, Call-start, Call-complete, CallAt-precede, Keeps-abandon,
  Spend-err_recover, Spend-err_and_bump, Call-at_contextual_kw, Spend-nth_is, Spend-assert_at,
  Spend-at_neither, Spend-before, Keeps-precede, Call-comma_unless_at,
}
use rust_analyzer.Grammar.Keeps.Entries.{entry_rules}

pub ruleset op_rules = (
  Spend-nth, Spend-current, Spend-at, Spend-at_ts, Spend-bump, Spend-bump_remap, Call-error,
  Spend-eat, Spend-expect, Call-start, Call-complete, Spend-err_recover, Spend-err_and_bump,
  Call-at_contextual_kw, Spend-nth_is, Spend-assert_at, Spend-at_neither, Spend-before,
  Call-comma_unless_at,
)

pub ruleset keeps_rules = (
  op_rules, entry_rules, has_none, has_one, has_below, has_alone, has_later, forgets_none,
  forgets_one, Keeps-pure, Keeps-if, Keeps-unreachable, Keeps-abandon, Keeps-precede, Keeps-loop,
  Keeps-fresh, Keeps-completed, Keeps-maybe, Keeps-then, Spends-completed, Spends-maybe,
  Spends-then, Call-if, Call-pure, Call-assert, Call-when, Call-or, Call-and, Call-not, Spend-or,
  Spend-and, Spend-not, Spend-while, Spend-loop, Call-Spend, Keeps-last, Spends-last,
)
