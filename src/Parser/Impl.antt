-- ===== src/Parser/Impl.antt =====
-- `ParserImpl` of crates/ra_syntax/src/parser_impl.rs. An operation is a function from the state to
-- the result and the new state; `none` is a panic.
use Prim.Native.String.{String}
use rust_analyzer.Base.{
  ℕ, ◌+◌, ◌-◌, Bool, true, false, ◌&&◌, List, [], ◌∷◌, ◌++◌, Option, none, some, ltb, leb, ◌==◌,
  if◌then◌else◌, get_elem?, set, length, take,
}
use rust_analyzer.Base
use rust_analyzer.SyntaxKind
use rust_analyzer.SyntaxKind.{SyntaxKind}
use rust_analyzer.SyntaxKind.Text.{text_eq}
use rust_analyzer.Parser.Event
use rust_analyzer.Parser.Event.{Event}
use rust_analyzer.Parser.Input
use rust_analyzer.Parser.Input.{ParserInput}

-- `parser_input` never changes, and is an argument of the operations that read it.
pub record ParserImpl : Type 0 where
  pub pos : ℕ
  pub events : List Event
  pub steps : ℕ

-- ParserImpl::new
abbrev pub new : ParserImpl
new = record { pos = 0; events = []; steps = 0 }

abbrev pub Parse : Type 0 → Type 0
Parse A = ParserImpl → Option (A × ParserImpl)

unfoldable pub pure : {A : Type 0} → A → Parse A
pure a p = some (a, p)

infixl 5 ◌>>=◌ ◌>>◌
unfoldable pub ◌>>=◌ : {A B : Type 0} → Parse A → (A → Parse B) → Parse B
unfolding pure
◌>>=◌ m f p = Base.◌>>=◌ (m p) (λ (a, q). f a q)

abbrev pub ◌>>◌ : {A B : Type 0} → Parse A → Parse B → Parse B
m >> n = m >>= λ _. n

-- ParserImpl::push_event
unfoldable pub push_event : Event → Parse (Unit {0})
push_event event p = some (tt, record p { events = p.events ++ event ∷ [] })

-- The limit of `nth` on the number of lookaheads.
abbrev pub max_steps : ℕ
max_steps = 10_000_000

module _ (inp : ParserInput) where
  -- ParserImpl::nth
  unfoldable pub nth : ℕ → Parse SyntaxKind
  nth n p =
      if leb p.steps max_steps
      then some (Input.kind inp (p.pos + n), record p { steps = p.steps + 1 })
      else none

  -- Token `n + 1` after the current one starts where token `n` after it ends.
  unfoldable pub joined : ℕ → ℕ → Bool
  joined pos n =
      Input.token_start_at inp (pos + n + 1)
      == Input.token_start_at inp (pos + n) + Input.token_len inp (pos + n)

  -- ParserImpl::next2
  unfoldable pub next2 : Parse (Option (SyntaxKind × SyntaxKind))
  unfolding joined
  next2 p =
      some (
        if joined p.pos 0 then some (Input.kind inp p.pos, Input.kind inp (p.pos + 1)) else none,
        p,
      )

  -- ParserImpl::next3
  unfoldable pub next3 : Parse (Option (SyntaxKind × SyntaxKind × SyntaxKind))
  unfolding joined
  next3 p = some (
    if joined p.pos 0 && joined p.pos 1
        then some (Input.kind inp p.pos, Input.kind inp (p.pos + 1), Input.kind inp (p.pos + 2))
        else none,
    p,
  )

  -- ParserImpl::at_kw
  unfoldable pub at_kw : List ℕ → Parse Bool
  at_kw t p = Base.◌>>=◌ (Input.token_text inp p.pos) λ text. some (text_eq text t, p)

-- ParserImpl::start
unfoldable pub start : Parse ℕ
unfolding push_event
start p = (do push_event Event.tombstone; pure (length p.events)) p

-- ParserImpl::do_bump
unfoldable pub do_bump : SyntaxKind → ℕ → Parse (Unit {0})
unfolding push_event
do_bump kind n_raw_tokens p =
    push_event (Event.token kind n_raw_tokens) (record p { pos = p.pos + n_raw_tokens })

module _ (inp : ParserInput) where
  -- ParserImpl::bump
  unfoldable pub bump : Parse (Unit {0})
  unfolding nth do_bump
  bump = do kind ← nth inp 0; if kind == SyntaxKind.eof then pure tt else do_bump kind 1

  -- ParserImpl::bump_remap
  unfoldable pub bump_remap : SyntaxKind → Parse (Unit {0})
  unfolding nth do_bump
  bump_remap kind = do
    current ← nth inp 0
    if current == SyntaxKind.eof then pure tt else do_bump kind 1

-- ParserImpl::bump_compound
unfoldable pub bump_compound : SyntaxKind → ℕ → Parse (Unit {0})
unfolding do_bump
bump_compound kind n = do_bump kind n

-- ParserImpl::error
unfoldable pub error : String → Parse (Unit {0})
unfolding push_event
error msg = push_event (Event.error msg)

abbrev pub set_kind : SyntaxKind → Option Event → Option Event
set_kind kind (some (Event.start slot forward_parent)) = some (Event.start kind forward_parent)
set_kind kind _ = none

-- ParserImpl::complete
unfoldable pub complete : ℕ → SyntaxKind → Parse (Unit {0})
unfolding push_event
complete pos kind p =
    Base.◌>>=◌ (set_kind kind (get_elem? p.events pos))
      λ event. push_event Event.finish (record p { events = set p.events pos event })

abbrev pub is_tombstone : Option Event → Bool
is_tombstone (some (Event.start kind none)) = kind == SyntaxKind.tombstone
is_tombstone _ = false

-- ParserImpl::abandon. On no events `len() - 1` wraps around in a release build, and no position is
-- the last.
unfoldable pub abandon : ℕ → Parse (Unit {0})
abandon pos p =
    if pos + 1 == length p.events
    then (if is_tombstone (get_elem? p.events pos)
        then some (tt, record p { events = take pos p.events })
        else none)
    else some (tt, p)

abbrev pub set_forward_parent : ℕ → Option Event → Option Event
set_forward_parent distance (some (Event.start kind forward_parent)) =
    some (Event.start kind (some distance))
set_forward_parent distance _ = none

abbrev link : ℕ → ℕ → Parse (Unit {0})
link pos new_pos p =
    Base.◌>>=◌ (set_forward_parent (new_pos - pos) (get_elem? p.events pos))
      λ event. some (tt, record p { events = set p.events pos event })

-- ParserImpl::precede
unfoldable pub precede : ℕ → Parse ℕ
unfolding start
precede pos = do new_pos ← start; link pos new_pos; pure new_pos

module _ (inp : ParserInput) where
  -- ParserImpl::into_events
  unfoldable pub into_events : ParserImpl → Option (List Event)
  unfolding nth
  into_events p =
      Base.◌>>=◌ (nth inp 0 p) λ (kind, q). if kind == SyntaxKind.eof then some q.events else none
