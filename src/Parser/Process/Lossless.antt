-- ===== src/Parser/Process/Lossless.antt =====
-- Building the tree (crates/ra_syntax/src/parser_impl/event.rs) puts every character of the text into
-- a leaf, in order, and never panics.
use rust_analyzer.Base.{
  ℕ, zero, suc, ◌+◌, ◌≡◌, refl, ◌∙◌, sym, ap, subst, List, [], ◌∷◌, ◌++◌, append-nil, Option, some,
  arith, length, drop, get_elem?, set, map, ◌>>=◌, drop-suc, get_elem?-map, length-map,
  drop-map-set, get_elem?_of_lt, length-set,
}
use rust_analyzer.Base.Str.{str_len}
use rust_analyzer.Lexer.Tokenize.{Token}
use rust_analyzer.Parser.Event
use rust_analyzer.Parser.Event.{Event, start}
use rust_analyzer.Parser.Sink.{SinkCall}
use rust_analyzer.Parser.Process.{Processor, process_event, process_from, process}
use rust_analyzer.Parser.Process.Cursor.{leaf_texts, Covers, covers_nil, At, Reaches, Reaches-here}
use rust_analyzer.Parser.Process.Trivia.{skip_trivias}
use rust_analyzer.Parser.Process.Links.{IsLinked, IsLinked-set, LinksTo-set, shape}
use rust_analyzer.Parser.Process.Step.{Feeds, EndsInFinish, Stepped, Stepped-event}

module _ (text : List ℕ) (tokens : List Token) where
  -- The state of the loop before event `i`, with the shapes `todo` from there on.
  record Ready (events : List Event) (i : ℕ) (todo : List Event) (p : Processor) : Type 0 where
    left : List Token
    at : At text tokens left p
    linked : IsLinked events
    shapes : drop i (map shape events) ≡ todo
    feeds : Feeds todo (skip_trivias left)
    ends : EndsInFinish todo

  -- A round at an event of the list.
  Stepped-round :
      (events rest : List Event) (i : ℕ) (event : Event) (p : Processor)
      → get_elem? events i ≡ some event
      → i + suc (length rest) ≡ length events
      → Ready events i (shape event ∷ rest) p
      → Stepped text tokens
          (set events i Event.tombstone)
          i
          rest
          (process_event text tokens i event (set events i Event.tombstone) p)
  Stepped-round events rest i event p here count r =
      let after : drop (suc i) (map shape events) ≡ rest = ap (drop 1) (
        sym (drop-suc i (map shape events) (shape event) (get_elem?-map shape events i event here))
        ∙ r.shapes) in
      Stepped-event text tokens (set events i Event.tombstone) i rest r.left p
        (IsLinked-set events i r.linked) (drop-map-set shape events i Event.tombstone ∙ after)
        (omega (arith, length-set events i Event.tombstone)) r.at event
        (λ kind forward_parent e.
          LinksTo-set events i i forward_parent
            (r.linked.links i kind forward_parent (here ∙ ap some e)))
        r.ends r.feeds

  first_shape :
      (events rest : List Event) (i : ℕ) (e event : Event)
      → drop i (map shape events) ≡ e ∷ rest
      → get_elem? events i ≡ some event
      → e ≡ shape event
  first_shape events rest i e event shapes here = cc (
    shapes,
    drop-suc i (map shape events) (shape event) (get_elem?-map shape events i event here),
  )

  -- A round, and then the rest of the loop.
  Reaches-round :
      (rounds i : ℕ) (events rest : List Event) (e : Event) (p : Processor)
      → i + suc rounds ≡ length events
      → length rest ≡ rounds
      → Ready events i (e ∷ rest) p
      → ((o : Option (List Event × Processor))
            (st : Stepped text tokens (set events i Event.tombstone) i rest o)
          → Reaches text tokens [] (process_from text tokens rounds (i + 1) st.events' st.next))
      → Reaches text tokens [] (process_from text tokens (suc rounds) i events p)
  unfolding process_from
  Reaches-round rounds i events rest e p total count r k =
      let (event, here) = get_elem?_of_lt events i (omega arith) in
      let st = Stepped-round events rest i event p here (omega arith) (
        subst (λ e. Ready events i (e ∷ rest) p) (first_shape events rest i e event r.shapes here)
          r) in
      rw (here, st.returned) (k _ st)

  -- The loop comes to the end of the tokens.
  Reaches-process_from :
      (rounds i : ℕ) (events rest : List Event) (e : Event) (p : Processor)
      → i + suc rounds ≡ length events
      → length rest ≡ rounds
      → Ready events i (e ∷ rest) p
      → Reaches text tokens [] (process_from text tokens (suc rounds) i events p)
  Reaches-process_from zero i events [] e p total count r =
      Reaches-round zero i events [] e p total count r λ o st.
        unfold process_from in
        Reaches-here text tokens st.next
          (subst (λ l. At text tokens l st.next) (st.finished refl) st.at)
  Reaches-process_from zero i events (_ ∷ rest) e p total count r = absurd (omega arith)
  Reaches-process_from (suc rounds) i events [] e p total count r = absurd (omega arith)
  Reaches-process_from (suc rounds) i events (e' ∷ rest) e p total count r =
      Reaches-round (suc rounds) i events (e' ∷ rest) e p total count r λ o st.
        Reaches-process_from rounds (i + 1) st.events' rest e' st.next
          (omega (arith, st.same_length, length-set events i Event.tombstone)) (omega arith)
          (record {
            left = st.left;
            at = st.at;
            linked = st.linked;
            feeds = st.feeds;
            ends = r.ends;
            shapes =
                subst (λ k. drop k (map shape st.events') ≡ e' ∷ rest) {x = suc i} {y = i + 1}
                  (omega arith) st.shapes;
          })

-- What `process` gives to the sink: all the leaves, in order, are the text.
pub record BuildsText (text : List ℕ) (o : Option (List SinkCall)) : Type 0 where
  pub calls : List SinkCall
  pub returned : o ≡ some calls
  pub lossless : leaf_texts calls ≡ text

nothing_left : (text : List ℕ) → Covers [] text → text ≡ []
nothing_left _ covers_nil = refl

builds :
    (text : List ℕ) (tokens : List Token) (o : Option Processor)
    → Reaches text tokens [] o
    → BuildsText text (o >>= λ p. some p.sink)
builds text tokens o r = rw r.returned (record {
  calls = r.next.sink;
  returned = refl;
  lossless =
      sym (append-nil (leaf_texts r.next.sink))
      ∙ ap (λ t. leaf_texts r.next.sink ++ t) (sym (nothing_left r.at.todo r.at.covers))
      ∙ r.at.splits;
})

-- At the start the whole text is to come.
pub At_zero :
    (text : List ℕ) (tokens : List Token)
    → Covers tokens text
    → At text tokens tokens (record { sink = []; text_pos = 0; token_pos = 0 })
unfolding leaf_texts str_len
At_zero text tokens covers = record {
  todo = text;
  splits = refl;
  offset = refl;
  covers = covers;
  tokens_left = refl;
}

-- Take tokens that cover a text, and events that are linked, end in a finish and whose token events
-- take all tokens but trivia. Then `process` does not panic, and the texts of the leaves that it
-- puts into the tree, in order, are the text.
pub process-BuildsText :
    (text : List ℕ) (tokens : List Token) (events : List Event)
    → Covers tokens text
    → IsLinked events
    → Feeds (map shape events) (skip_trivias tokens)
    → EndsInFinish (map shape events)
    → BuildsText text (process text tokens events)
unfolding process
process-BuildsText text tokens [] covers linked feeds ends = absurd ends
process-BuildsText text tokens (e ∷ events) covers linked feeds ends = builds text tokens _ (
    Reaches-process_from text tokens (length events) 0 (e ∷ events) (map shape events) (shape e) _
      (omega arith) (length-map shape events)
      (record {
        left = tokens;
        at = At_zero text tokens covers;
        linked = linked;
        shapes = refl;
        feeds = feeds;
        ends = ends;
      }))
