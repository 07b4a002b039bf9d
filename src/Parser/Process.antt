-- ===== src/Parser/Process.antt =====
-- `EventProcessor` of crates/ra_syntax/src/parser_impl/event.rs: events become calls of a `Sink`.
-- A result of `none` is a panic.
pub mod Cursor
pub mod Trivia
pub mod Start
pub mod Links
pub mod Step
pub mod Lossless
use Prim.Native.String.{String}
use rust_analyzer.Base.{
  ℕ, zero, suc, ◌+◌, ◌-◌, Bool, true, false, ◌||◌, List, [], ◌∷◌, ◌++◌, Option, none, some, ◌==◌,
  if◌then◌else◌, get_elem?, set, length, take, drop, ◌>>=◌,
}
use mathlib.Core.List.{reverse}
use rust_analyzer.Base.Str.{slice, contains}
use rust_analyzer.SyntaxKind
use rust_analyzer.SyntaxKind.{SyntaxKind, is_trivia}
use rust_analyzer.Lexer.Tokenize.{Token}
use rust_analyzer.Parser.Sink.{SinkCall}
use rust_analyzer.Parser.Event
use rust_analyzer.Parser.Event.{Event}

-- The fields of `EventProcessor` that change; the sink is the sequence of its calls.
pub record Processor : Type 0 where
  pub sink : List SinkCall
  pub text_pos : ℕ
  pub token_pos : ℕ

abbrev pub call : SinkCall → Processor → Processor
call c p = record p { sink = p.sink ++ c ∷ [] }

unfoldable pub sum_len : List Token → ℕ
sum_len [] = 0
sum_len (token ∷ tokens) = token.len + sum_len tokens

-- `take_while(|it| it.kind.is_trivia())`
unfoldable pub take_trivias : List Token → List Token
take_trivias [] = []
take_trivias (token ∷ tokens) =
    let rest = take_trivias tokens in if is_trivia token.kind then token ∷ rest else []

-- The trivia of the iterator, each with its text, which is cut out when it is reached.
abbrev pub Trivia : Type 0
Trivia = SyntaxKind × Option (List ℕ)

-- The loop of `n_attached_trivias`; `i` counts the rounds.
unfoldable pub count_attached : List Trivia → ℕ → ℕ → Option ℕ
count_attached [] i res = some res
count_attached ((kind, text) ∷ trivias) i res =
    let go_on = count_attached trivias (i + 1) res in
    let attach = count_attached trivias (i + 1) (i + 1) in
    text >>= λ t.
    if kind == SyntaxKind.whitespace
    then (if contains t (10 ∷ 10 ∷ []) then some res else go_on)
    else if kind == SyntaxKind.comment
    then attach
    else go_on

abbrev pub attaches_trivias : SyntaxKind → Bool
attaches_trivias kind =
    kind == SyntaxKind.const_def
    || kind == SyntaxKind.type_def
    || kind == SyntaxKind.struct_def
    || kind == SyntaxKind.enum_def
    || kind == SyntaxKind.fn_def
    || kind == SyntaxKind.trait_def
    || kind == SyntaxKind.module_node

unfoldable pub n_attached_trivias : SyntaxKind → List Trivia → Option ℕ
n_attached_trivias kind trivias =
    if attaches_trivias kind then count_attached trivias 0 0 else some 0

-- The texts of the leading trivia from the last one back, the last one ending at `trivia_end`.
unfoldable pub trivia_texts : List ℕ → List Token → ℕ → List Trivia
trivia_texts text [] trivia_end = []
trivia_texts text (token ∷ earlier) trivia_end =
    let next_end = trivia_end - token.len in
    (token.kind, slice text next_end token.len) ∷ trivia_texts text earlier next_end

-- The `while let Some(fwd) = fp` of `process`, at most `rounds` times: a link goes to a later
-- event, so as many rounds as there are events are enough. The kinds come latest first.
unfoldable pub follow :
    ℕ → ℕ → Option ℕ → List SyntaxKind → List Event → Option (List SyntaxKind × List Event)
follow rounds idx none kinds events = some (kinds, events)
follow zero idx (some fwd) kinds events = none
follow (suc rounds) idx (some fwd) kinds events = get_elem? events (idx + fwd) >>= λ event.
    elim event [
      | Event.start kind forward_parent ↦
          follow rounds (idx + fwd) forward_parent (kind ∷ kinds)
            (set events (idx + fwd) Event.tombstone)
      | _ ↦ none
    ]

module _ (text : List ℕ) (tokens : List Token) where
  -- EventProcessor::leaf
  unfoldable pub leaf : SyntaxKind → ℕ → ℕ → Processor → Option Processor
  leaf kind len n_tokens p = slice text p.text_pos len >>= λ piece. some (record {
    sink = p.sink ++ SinkCall.leaf kind piece ∷ [];
    text_pos = p.text_pos + len;
    token_pos = p.token_pos + n_tokens;
  })

  -- `eat_trivias` over the tokens from `token_pos` on.
  unfoldable pub eat_trivias_from : List Token → Processor → Option Processor
  eat_trivias_from [] p = some p
  eat_trivias_from (token ∷ rest) p =
      let eaten = leaf token.kind token.len 1 p >>= λ q. eat_trivias_from rest q in
      if is_trivia token.kind then eaten else some p

  -- EventProcessor::eat_trivias
  unfoldable pub eat_trivias : Processor → Option Processor
  eat_trivias p = eat_trivias_from (drop p.token_pos tokens) p

  -- EventProcessor::eat_n_trivias
  unfoldable pub eat_n_trivias : ℕ → Processor → Option Processor
  eat_n_trivias zero p = some p
  eat_n_trivias (suc n) p = get_elem? tokens p.token_pos >>= λ token.
      if is_trivia token.kind
      then (leaf token.kind token.len 1 p >>= λ q. eat_n_trivias n q)
      else none

  -- EventProcessor::start
  unfoldable pub start : SyntaxKind → Processor → Option Processor
  start kind p =
      if kind == SyntaxKind.source_file
      then some (call (SinkCall.start_branch kind) p)
      else (let leading_trivias = take_trivias (drop p.token_pos tokens) in
          let n_trivias = length leading_trivias in
          let trivia_end = p.text_pos + sum_len leading_trivias in
          n_attached_trivias kind (trivia_texts text (reverse leading_trivias) trivia_end)
          >>= λ n_attached. eat_n_trivias (n_trivias - n_attached) p >>= λ q.
              eat_n_trivias n_attached (call (SinkCall.start_branch kind) q))

  -- EventProcessor::finish
  unfoldable pub finish : Bool → Processor → Option Processor
  finish is_last p =
      (if is_last then eat_trivias p else some p) >>= λ q. some (call SinkCall.finish_branch q)

  -- The arm of `Event::Token` in `process`.
  unfoldable pub put_token : SyntaxKind → ℕ → Processor → Option Processor
  put_token kind n_raw_tokens p = eat_trivias p >>= λ q.
      let raw = take n_raw_tokens (drop q.token_pos tokens) in
      if length raw == n_raw_tokens then leaf kind (sum_len raw) n_raw_tokens q else none

  -- `for kind in forward_parents.drain(..).rev() { self.start(kind); }`
  unfoldable pub start_all : List SyntaxKind → Processor → Option Processor
  start_all [] p = some p
  start_all (kind ∷ kinds) p = start kind p >>= λ q. start_all kinds q

  -- One round of `process`, at event `i`.
  unfoldable pub process_event :
      ℕ → Event → List Event → Processor → Option (List Event × Processor)
  process_event i (Event.start kind forward_parent) events p =
      if kind == SyntaxKind.tombstone
      then some (events, p)
      else (follow (length events) i forward_parent (kind ∷ []) events >>= λ (kinds, left).
          start_all kinds p >>= λ q. some (left, q))
  process_event i Event.finish events p =
      finish (i + 1 == length events) p >>= λ q. some (events, q)
  process_event i (Event.token kind n_raw_tokens) events p =
      put_token kind n_raw_tokens p >>= λ q. some (events, q)
  process_event i (Event.error msg) events p = some (events, call (SinkCall.error msg p.text_pos) p)

  -- The loop of `process` over `rounds` events from `i` on.
  unfoldable pub process_from : ℕ → ℕ → List Event → Processor → Option Processor
  process_from zero i events p = some p
  process_from (suc rounds) i events p = get_elem? events i >>= λ event.
      process_event i event (set events i Event.tombstone) p >>= λ (left, q).
      process_from rounds (i + 1) left q

  -- EventProcessor::new and EventProcessor::process: the calls that the sink receives.
  unfoldable pub process : List Event → Option (List SinkCall)
  unfolding process_from process_event follow start_all start finish put_token eat_n_trivias
      eat_trivias eat_trivias_from leaf take_trivias trivia_texts n_attached_trivias count_attached
      sum_len
  process events =
      process_from (length events) 0 events (record { sink = []; text_pos = 0; token_pos = 0 })
      >>= λ p. some p.sink
