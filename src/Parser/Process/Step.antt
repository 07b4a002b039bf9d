-- ===== src/Parser/Process/Step.antt =====
-- One round of building the tree (crates/ra_syntax/src/parser_impl/event.rs), for each kind of event.
use rust_analyzer.Base.{
  ℕ, suc, ◌+◌, ◌≤◌, ◌≡◌, refl, ◌∙◌, sym, ap, subst, Bool, true, false, List, [], ◌∷◌, ◌++◌, Option,
  none, some, arith, if◌then◌else◌, length, take, drop, length-take, take-append-drop, map, ◌>>=◌,
  ◌==◌,
}
use rust_analyzer.SyntaxKind
use rust_analyzer.Parser.Process.Links.{LinksTo}
use Prim.Native.String.{String}
use rust_analyzer.Base.{◌≢◌, ==_iff}
use rust_analyzer.SyntaxKind.{SyntaxKind}
use rust_analyzer.Lexer.Tokenize.{Token}
use rust_analyzer.Parser.Event.{Event, start, finish, token, error}
use rust_analyzer.Parser.Sink.{SinkCall}
use rust_analyzer.Parser.Process
use rust_analyzer.Parser.Process.{
  Processor, call, sum_len, put_token, start_all, process_event, process_from, process,
}
use rust_analyzer.Parser.Process.Cursor.{At, At-call, Reaches, Reaches-bind, Reaches-leaf}
use rust_analyzer.Parser.Process.Trivia.{skip_trivias, skip_trivias_idem, Reaches-eat_trivias}
use rust_analyzer.Parser.Process.Start.{Starts-start_all}
use rust_analyzer.Parser.Process.Links.{IsLinked, shape, Followed-follow}

-- By their shapes, the token events take all tokens of the list, up to trivia before each and after
-- the last; the list starts with no trivia.
unfoldable pub Feeds : List Event → List Token → Type 0
Feeds [] solid = solid ≡ []
Feeds (token kind n ∷ events) solid =
    (n ≤ length solid) × Feeds events (skip_trivias (drop n solid))
Feeds (start kind forward_parent ∷ events) solid = Feeds events solid
Feeds (finish ∷ events) solid = Feeds events solid
Feeds (error msg ∷ events) solid = Feeds events solid

-- The last event is a finish.
abbrev pub EndsInFinish : List Event → Type 0
EndsInFinish [] = ⊥
EndsInFinish (event ∷ []) = event ≡ finish
EndsInFinish (event ∷ next ∷ events) = EndsInFinish (next ∷ events)

not_last :
    {event : Event} {rest : List Event} → EndsInFinish (event ∷ rest) → event ≢ finish → rest ≢ []
not_last {event} {rest} ends other e = other (subst (λ r. EndsInFinish (event ∷ r)) e ends)

module _ (text : List ℕ) (tokens : List Token) where
  Reaches-if_true :
      {left : List Token} (b : Bool) (o : Option Processor)
      → b ≡ true
      → Reaches text tokens left o
      → Reaches text tokens left (if b then o else none)
  Reaches-if_true true o e r = r
  Reaches-if_true false o e r = cc

  Reaches-put_token :
      (kind : SyntaxKind) (n : ℕ) (left : List Token) (p : Processor)
      → n ≤ length (skip_trivias left)
      → At text tokens left p
      → Reaches text tokens (drop n (skip_trivias left)) (put_token text tokens kind n p)
  unfolding put_token
  Reaches-put_token kind n left p h a =
      Reaches-bind text tokens _ _ (Reaches-eat_trivias text tokens left p a) λ q b.
        let us = take n (skip_trivias left) in
        let vs = drop n (skip_trivias left) in
        let taken : length us ≡ n = length-take n (skip_trivias left) h in
        let whole : skip_trivias left ≡ us ++ vs = sym (take-append-drop n (skip_trivias left)) in
        let put : Reaches text tokens vs (Process.leaf text tokens kind (sum_len us) n q) =
          subst (λ k. Reaches text tokens vs (Process.leaf text tokens kind (sum_len us) k q)) taken
            (Reaches-leaf text tokens kind us vs q (subst (λ l. At text tokens l q) whole b)) in
        rw b.tokens_left (Reaches-if_true (length us == n) _ ((==_iff (length us) n).1 taken) put)

  -- A round of the loop, with the shapes `rest` to come after it.
  pub record Stepped (events : List Event) (i : ℕ) (rest : List Event)
      (o : Option (List Event × Processor)) : Type 0 where
    pub events' : List Event
    pub next : Processor
    pub returned : o ≡ some (events', next)
    pub same_length : length events' ≡ length events
    pub linked : IsLinked events'
    pub shapes : drop (suc i) (map shape events') ≡ rest
    pub left : List Token
    pub at : At text tokens left next
    pub feeds : Feeds rest (skip_trivias left)
    pub finished : rest ≡ [] → left ≡ []

  Stepped-if :
      {events rest : List Event} {i : ℕ} (b : Bool) (x y : Option (List Event × Processor))
      → Stepped events i rest x
      → Stepped events i rest y
      → Stepped events i rest (if b then x else y)
  Stepped-if true x y hx hy = hx
  Stepped-if false x y hx hy = hy

  module _ (events : List Event) (i : ℕ) (rest : List Event) (left : List Token) (p : Processor)
      (linked : IsLinked events) (shapes : drop (suc i) (map shape events) ≡ rest)
      (count : suc i + length rest ≡ length events) (at : At text tokens left p) where
    Stepped-start :
        (kind : SyntaxKind) (forward_parent : Option ℕ)
        → LinksTo events i forward_parent
        → rest ≢ []
        → Feeds rest (skip_trivias left)
        → Stepped events i rest (process_event text tokens i (start kind forward_parent) events p)
    unfolding process_event
    Stepped-start kind forward_parent to more feeds =
        let f =
          Followed-follow (length events) i forward_parent (kind ∷ []) events (omega arith) to
            linked in
        let s = Starts-start_all text tokens f.kinds' left p at in
        Stepped-if (kind == SyntaxKind.tombstone) _ _
          (record {
            events' = events;
            next = p;
            returned = refl;
            same_length = refl;
            linked = linked;
            shapes = shapes;
            left = left;
            at = at;
            feeds = feeds;
            finished = λ e. absurd (more e);
          })
          (rw (f.returned, s.reaches.returned)
            (record {
              events' = f.events';
              next = s.reaches.next;
              returned = refl;
              same_length = f.same_length;
              linked = f.linked;
              shapes = ap (drop (suc i)) f.same ∙ shapes;
              left = s.left';
              at = s.reaches.at;
              feeds = subst (Feeds rest) (sym s.same) feeds;
              finished = λ e. absurd (more e);
            }))

    Stepped-finish_with :
        (is_last : Bool)
        → (rest ≡ [] → is_last ≡ true)
        → Feeds rest (skip_trivias left)
        → Stepped events i rest (Process.finish text tokens is_last p >>= λ q. some (events, q))
    unfolding Process.finish Feeds
    Stepped-finish_with true h feeds =
        let r = Reaches-eat_trivias text tokens left p at in
        rw r.returned (record {
          events' = events;
          next = call SinkCall.finish_branch r.next;
          returned = refl;
          same_length = refl;
          linked = linked;
          shapes = shapes;
          left = skip_trivias left;
          at = At-call text tokens SinkCall.finish_branch r.next tt r.at;
          feeds = subst (Feeds rest) (sym (skip_trivias_idem left)) feeds;
          finished = λ e. subst (λ r. Feeds r (skip_trivias left)) e feeds;
        })
    Stepped-finish_with false h feeds = record {
      events' = events;
      next = call SinkCall.finish_branch p;
      returned = refl;
      same_length = refl;
      linked = linked;
      shapes = shapes;
      left = left;
      at = At-call text tokens SinkCall.finish_branch p tt at;
      feeds = feeds;
      finished = λ e. absurd (cc (h e));
    }

    Stepped-finish :
        Feeds rest (skip_trivias left)
        → Stepped events i rest (process_event text tokens i finish events p)
    unfolding process_event
    Stepped-finish feeds =
        Stepped-finish_with (i + 1 == length events)
          (λ e. (==_iff (i + 1) (length events)).1 (omega (arith, ap length e))) feeds

    Stepped-token :
        (kind : SyntaxKind) (n : ℕ)
        → rest ≢ []
        → (n ≤ length (skip_trivias left)) × Feeds rest (skip_trivias (drop n (skip_trivias left)))
        → Stepped events i rest (process_event text tokens i (token kind n) events p)
    unfolding process_event
    Stepped-token kind n more feeds =
        let put = Reaches-put_token kind n left p feeds.0 at in
        rw put.returned (record {
          events' = events;
          next = put.next;
          returned = refl;
          same_length = refl;
          linked = linked;
          shapes = shapes;
          left = drop n (skip_trivias left);
          at = put.at;
          feeds = feeds.1;
          finished = λ e. absurd (more e);
        })

    Stepped-error :
        (msg : String)
        → rest ≢ []
        → Feeds rest (skip_trivias left)
        → Stepped events i rest (process_event text tokens i (error msg) events p)
    unfolding process_event
    Stepped-error msg more feeds = record {
      events' = events;
      next = call (SinkCall.error msg p.text_pos) p;
      returned = refl;
      same_length = refl;
      linked = linked;
      shapes = shapes;
      left = left;
      at = At-call text tokens (SinkCall.error msg p.text_pos) p tt at;
      feeds = feeds;
      finished = λ e. absurd (more e);
    }

    -- One round, whatever the event.
    pub Stepped-event :
        (event : Event)
        → ((kind : SyntaxKind) (forward_parent : Option ℕ)
            → event ≡ start kind forward_parent
            → LinksTo events i forward_parent)
        → EndsInFinish (shape event ∷ rest)
        → Feeds (shape event ∷ rest) (skip_trivias left)
        → Stepped events i rest (process_event text tokens i event events p)
    unfolding Feeds shape
    Stepped-event (start kind forward_parent) to ends feeds =
        Stepped-start kind forward_parent (to kind forward_parent refl) (not_last ends (cc)) feeds
    Stepped-event finish to ends feeds = Stepped-finish feeds
    Stepped-event (token kind n) to ends feeds = Stepped-token kind n (not_last ends (cc)) feeds
    Stepped-event (error msg) to ends feeds = Stepped-error msg (not_last ends (cc)) feeds
