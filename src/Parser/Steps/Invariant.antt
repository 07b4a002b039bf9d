-- ===== src/Parser/Steps/Invariant.antt =====
-- Whatever a grammar does through the parser (crates/ra_syntax/src/parser_impl.rs), its events stay
-- linked and account for the tokens that it read.
use rust_analyzer.Base.{List}
use rust_analyzer.Lexer.Tokenize.{Token}
use rust_analyzer.Parser.Input.{ParserInput}
use rust_analyzer.Parser.Impl.{ParserImpl}
use rust_analyzer.Parser.Steps.{
  by_bump_compound, Step, Run, by_nth, by_start, by_bump, by_bump_remap, by_error, by_complete,
  by_abandon, by_precede, done, then_step,
}
use rust_analyzer.Parser.Steps.Fit.{Fit, Fit-Keeps, Keeps-error, Keeps-nth, Keeps-start}
use rust_analyzer.Parser.Steps.Bumps.{Keeps-bump, Keeps-bump_compound, Keeps-bump_remap}
use rust_analyzer.Parser.Steps.Markers.{Keeps-abandon, Keeps-complete, Keeps-precede}

module _ (tokens : List Token) (inp : ParserInput) where
  -- Every operation of the parser keeps this so: each forward parent is a start further on, the
  -- token events take the tokens before the current one with the trivia between them, and the tokens
  -- left are those that the grammar still sees. A marker is abandoned only while it is nobody's
  -- forward parent, only one of an earlier event is preceded, and tokens are taken together only
  -- where they touch one another.
  pub Fit-Step : {p q : ParserImpl} → Step inp p q → Fit tokens inp p → Fit tokens inp q
  Fit-Step (by_nth {p} {q} n kind e) f =
      Fit-Keeps tokens inp _ kind q e (Keeps-nth tokens inp n p f)
  Fit-Step (by_start {p} {q} pos e) f = Fit-Keeps tokens inp _ pos q e (Keeps-start tokens inp p f)
  Fit-Step (by_bump {p} {q} e) f = Fit-Keeps tokens inp _ tt q e (Keeps-bump tokens inp p f)
  Fit-Step (by_bump_remap {p} {q} kind e) f =
      Fit-Keeps tokens inp _ tt q e (Keeps-bump_remap tokens inp kind p f)
  Fit-Step (by_bump_compound {p} {q} kind n t here touching e) f =
      Fit-Keeps tokens inp _ tt q e (Keeps-bump_compound tokens inp kind n t p here touching f)
  Fit-Step (by_error {p} {q} msg e) f =
      Fit-Keeps tokens inp _ tt q e (Keeps-error tokens inp msg p f)
  Fit-Step (by_complete {p} {q} pos kind e) f =
      Fit-Keeps tokens inp _ tt q e (Keeps-complete tokens inp pos kind p f)
  Fit-Step (by_abandon {p} {q} pos alone e) f =
      Fit-Keeps tokens inp _ tt q e (Keeps-abandon tokens inp pos p alone f)
  Fit-Step (by_precede {p} {q} pos new_pos below e) f =
      Fit-Keeps tokens inp _ new_pos q e (Keeps-precede tokens inp pos p below f)

  pub Fit-Run : {p q : ParserImpl} → Run inp p q → Fit tokens inp p → Fit tokens inp q
  Fit-Run done f = f
  Fit-Run (then_step r s) f = Fit-Step s (Fit-Run r f)
