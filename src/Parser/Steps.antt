-- ===== src/Parser/Steps.antt =====
-- What a grammar does to the state of the parser: sequences of the operations of `ParserImpl`
-- (crates/ra_syntax/src/parser_impl.rs) that did not panic.
pub mod Links
pub mod Takes
pub mod Aligned
pub mod Joined
pub mod Fit
pub mod Bumps
pub mod Markers
pub mod Invariant
pub mod Builds
pub mod Compounds
pub mod RawPairs
use Prim.Native.String.{String}
use rust_analyzer.Base.{ℕ, suc, true, ◌+◌, ◌≡◌, ◌≢◌, ◌<◌, length, List, Option, some, get_elem?}
use rust_analyzer.SyntaxKind.{SyntaxKind}
use rust_analyzer.Lexer.Tokenize.{Token}
use rust_analyzer.Parser.Event.{Event, start}
use rust_analyzer.Parser.Input.{ParserInput}
use rust_analyzer.Parser.Impl
use rust_analyzer.Parser.Impl.{ParserImpl}

-- No event has the event at `pos` for its forward parent.
abbrev pub NoChild : List Event → ℕ → Type 0
NoChild events pos =
    (i : ℕ) (kind : SyntaxKind) (d : ℕ)
    → get_elem? events i ≡ some (start kind (some d))
    → i + d ≢ pos

-- The tokens from `pos` on touch one another, as far as `n` tokens go; `next2` and `next3` test this.
abbrev pub Touching : ParserInput → ℕ → ℕ → Type 0
Touching inp pos n = (i : ℕ) → i + 1 < n → Impl.joined inp pos i ≡ true

-- One operation. A marker is abandoned only while it is nobody's forward parent, which is so for
-- those that `start` gives; only a marker of an earlier event is preceded; tokens
-- are taken together only where there are tokens that touch one another.
pub data Step (inp : ParserInput) : ParserImpl → ParserImpl → Type 0 where
  by_nth :
      {p q : ParserImpl} (n : ℕ) (kind : SyntaxKind)
      → Impl.nth inp n p ≡ some (kind, q)
      → Step inp p q
  by_start : {p q : ParserImpl} (pos : ℕ) → Impl.start p ≡ some (pos, q) → Step inp p q
  by_bump : {p q : ParserImpl} → Impl.bump inp p ≡ some (tt, q) → Step inp p q
  by_bump_remap :
      {p q : ParserImpl} (kind : SyntaxKind)
      → Impl.bump_remap inp kind p ≡ some (tt, q)
      → Step inp p q
  by_bump_compound :
      {p q : ParserImpl} (kind : SyntaxKind) (n : ℕ) (t : Token)
      → get_elem? inp.tokens p.pos ≡ some t
      → Touching inp p.pos (suc n)
      → Impl.bump_compound kind (suc n) p ≡ some (tt, q)
      → Step inp p q
  by_error : {p q : ParserImpl} (msg : String) → Impl.error msg p ≡ some (tt, q) → Step inp p q
  by_complete :
      {p q : ParserImpl} (pos : ℕ) (kind : SyntaxKind)
      → Impl.complete pos kind p ≡ some (tt, q)
      → Step inp p q
  by_abandon :
      {p q : ParserImpl} (pos : ℕ)
      → NoChild p.events pos
      → Impl.abandon pos p ≡ some (tt, q)
      → Step inp p q
  by_precede :
      {p q : ParserImpl} (pos new_pos : ℕ)
      → pos < length p.events
      → Impl.precede pos p ≡ some (new_pos, q)
      → Step inp p q

pub data Run (inp : ParserInput) : ParserImpl → ParserImpl → Type 0 where
  done : {p : ParserImpl} → Run inp p p
  then_step : {p q r : ParserImpl} → Run inp p q → Step inp q r → Run inp p r
