-- ===== src/Grammar/Monad.antt =====
-- What the functions of crates/ra_syntax/src/grammar.rs do with `p: &mut Parser`: a computation reads
-- the input and changes the state, and may panic.
use rust_analyzer.Base.{ℕ, zero, suc, Bool, true, false, Option, none, some, if◌then◌else◌}
use rust_analyzer.Base.Loop.{Flow, again, stop}
use rust_analyzer.Parser.Input.{ParserInput}
use rust_analyzer.Parser.Impl.{Parse, ParserImpl}

-- The result and the new state; a panic; or the fuel ran out.
pub data Outcome (A : Type 0) : Type 0 where
  returns : A → ParserImpl → Outcome A
  panics : Outcome A
  spent : Outcome A

abbrev pub Gram : Type 0 → Type 0
Gram A = ParserInput → ParserImpl → Outcome A

unfoldable pub pure : {A : Type 0} → A → Gram A
pure a inp p = returns a p

abbrev pub go_on : {A B : Type 0} → (A → ParserImpl → Outcome B) → Outcome A → Outcome B
go_on f (returns a q) = f a q
go_on f panics = panics
go_on f spent = spent

infixl 5 ◌>>=◌ ◌>>◌
unfoldable pub ◌>>=◌ : {A B : Type 0} → Gram A → (A → Gram B) → Gram B
◌>>=◌ m f inp p = go_on (λ a q. f a inp q) (m inp p)

abbrev pub ◌>>◌ : {A B : Type 0} → Gram A → Gram B → Gram B
m >> n = m >>= λ _. n

abbrev pub outcome : {A : Type 0} → Option (A × ParserImpl) → Outcome A
outcome none = panics
outcome (some (a, q)) = returns a q

-- An operation of the parser.
unfoldable pub lift : {A : Type 0} → (ParserInput → Parse A) → Gram A
lift m inp p = outcome (m inp p)

-- unreachable!
unfoldable pub unreachable : {A : Type 0} → Gram A
unreachable inp p = panics

-- assert!
unfoldable pub assert : Bool → Gram (Unit {0})
assert b = if b then pure tt else unreachable

-- `if b { m }`
unfoldable pub when : Bool → Gram (Unit {0}) → Gram (Unit {0})
when b m = if b then m else pure tt

-- `l || r`, `l && r` and `!l`
unfoldable pub or : Gram Bool → Gram Bool → Gram Bool
or l r = do a ← l; if a then pure true else r

unfoldable pub and : Gram Bool → Gram Bool → Gram Bool
and l r = do a ← l; if a then r else pure false

unfoldable pub not : Gram Bool → Gram Bool
not l = do a ← l; pure (if a then false else true)

module _ {S A : Type 0} where
  unfoldable pub next_round : (S → Gram A) → Flow S A → Gram A
  next_round rest (again s) = rest s
  next_round rest (stop a) = pure a

  -- `loop { … }`, in which a round ends by going on with new variables, or by a `break`.
  unfoldable pub rounds : ℕ → (S → Gram (Flow S A)) → S → Gram A
  rounds zero body s inp p = spent
  rounds (suc n) body s inp p = (body s >>= next_round (rounds n body)) inp p

  unfoldable pub loop : ℕ → (S → Gram (Flow S A)) → S → Gram A
  loop fuel body s = rounds (suc fuel) body s

-- `while test { … }`, in which a round gives `false` for a `break`.
abbrev pub while_round : Gram Bool → Gram Bool → Unit {0} → Gram (Flow (Unit {0}) (Unit {0}))
while_round test body _ = do
  more ← test
  if more then (do on ← body; pure (if on then again tt else stop tt)) else pure (stop tt)

unfoldable pub while : ℕ → Gram Bool → Gram Bool → Gram (Unit {0})
while fuel test body = loop fuel (while_round test body) tt
