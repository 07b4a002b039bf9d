-- ===== src/Grammar/AtEof.antt =====
-- `root` of crates/ra_syntax/src/grammar.rs stops only at the end of the input, as `into_events` of
-- crates/ra_syntax/src/parser_impl.rs asserts.
use rust_analyzer.Base.{
  ℕ, zero, suc, ◌+◌, ◌≤◌, ◌≡◌, refl, ap, subst, List, Option, none, some, arith, true, false, Bool,
  ◌==◌, ==_iff, if◌then◌else◌, leb, get_elem?,
}
use rust_analyzer.Base.Loop.{Flow, again, stop}
use rust_analyzer.SyntaxKind
use rust_analyzer.SyntaxKind.{SyntaxKind}
use rust_analyzer.Lexer.Classes.{UnicodeXid}
use rust_analyzer.Lexer.Tokenize.{Token, tokenize}
use rust_analyzer.Parser.Api
use rust_analyzer.Parser.Api.{Marker}
use rust_analyzer.Parser.Event.{Event, start, finish, token, error}
use rust_analyzer.Parser.Input
use rust_analyzer.Parser.Input.{ParserInput}
use rust_analyzer.Parser.Impl
use rust_analyzer.Parser.Impl.{ParserImpl, into_events, max_steps}
use rust_analyzer.Parser.Process.Lossless.{BuildsText}
use rust_analyzer.Parser.ParseWith.{parse_with}
use rust_analyzer.Grammar.Monad.{
  Outcome, returns, panics, spent, Gram, lift, outcome, go_on, pure, ◌>>=◌, ◌>>◌, and, not, rounds,
  loop, next_round, while, while_round,
}
use rust_analyzer.Grammar.Ops
use rust_analyzer.Grammar.Ops.{complete, eat, at}
use rust_analyzer.Grammar.Entries.{Grammar}
use rust_analyzer.Grammar.Items.{ItemFlavor}
use rust_analyzer.Grammar.Attributes.{inner_attributes}
use rust_analyzer.Grammar.Contents.{root, mod_contents, item_or_macro}
use rust_analyzer.Grammar.Knot.{grammar, enough, result, parse_root}
use rust_analyzer.Grammar.Lossless.{parse_root-BuildsText}

-- What holds of a result and the state, where there are any.
abbrev Post : {A : Type 0} → (A → ParserImpl → Type 0) → Outcome A → Type 0
Post P (returns a q) = P a q
Post P panics = Unit {0}
Post P spent = Unit {0}

Post-go_on :
    {A B : Type 0} (Q : A → ParserImpl → Type 0) (P : B → ParserImpl → Type 0) (o : Outcome A)
    (f : A → ParserImpl → Outcome B)
    → Post Q o
    → ((a : A) (q : ParserImpl) → Q a q → Post P (f a q))
    → Post P (go_on f o)
Post-go_on Q P (returns a q) f h k = k a q h
Post-go_on Q P panics f h k = tt
Post-go_on Q P spent f h k = tt

Post-anything : {A : Type 0} (o : Outcome A) → Post (λ a q. Unit {0}) o
Post-anything (returns a q) = tt
Post-anything panics = tt
Post-anything spent = tt

module _ (inp : ParserInput) where
  abbrev AtEof : ParserImpl → Type 0
  AtEof q = Input.kind inp q.pos ≡ SyntaxKind.eof

  Post-bind :
      {A B : Type 0} (Q : A → ParserImpl → Type 0) (P : B → ParserImpl → Type 0) (m : Gram A)
      (f : A → Gram B) (p : ParserImpl)
      → Post Q (m inp p)
      → ((a : A) (q : ParserImpl) → Q a q → Post P (f a inp q))
      → Post P ((m >>= f) inp p)
  unfolding ◌>>=◌
  Post-bind Q P m f p h k = Post-go_on Q P (m inp p) (λ a q. f a inp q) h k

  Post-then :
      {A B : Type 0} (P : B → ParserImpl → Type 0) (m : Gram A) (f : A → Gram B) (p : ParserImpl)
      → ((a : A) (q : ParserImpl) → Post P (f a inp q))
      → Post P ((m >>= f) inp p)
  Post-then P m f p k = Post-bind (λ a q. Unit) P m f p (Post-anything (m inp p)) (λ a q h. k a q)

  -- A test that gives this Boolean at the end of the input only.
  abbrev OnlyAtEof : Bool → Bool → ParserImpl → Type 0
  OnlyAtEof b a q = a ≡ b → AtEof q

  Post-at_within :
      (within : Bool) (p : ParserImpl)
      → Post (OnlyAtEof true) (
          outcome (
            Impl.◌>>=◌
              (λ (p : ParserImpl).
                if within
                then some (Input.kind inp (p.pos + 0), record p { steps = p.steps + 1 })
                else none)
              (λ c. Impl.pure (c == SyntaxKind.eof))
              p))
  unfolding Impl.◌>>=◌ Impl.pure
  Post-at_within true p = λ e.
      subst (λ k. Input.kind inp k ≡ SyntaxKind.eof) {x = p.pos + 0} {y = p.pos} (omega arith)
        ((==_iff _ SyntaxKind.eof).0 e)
  Post-at_within false p = tt

  Post-at : (p : ParserImpl) → Post (OnlyAtEof true) (at SyntaxKind.eof inp p)
  unfolding at lift Api.at Api.current Api.nth Impl.nth Impl.◌>>=◌ Impl.pure
  Post-at p = Post-at_within (leb p.steps max_steps) p

  Post-not_at : (p : ParserImpl) → Post (OnlyAtEof false) (not (at SyntaxKind.eof) inp p)
  unfolding not pure
  Post-not_at p =
      Post-bind (OnlyAtEof true) (OnlyAtEof false) (at SyntaxKind.eof)
        (λ a. pure (if a then false else true)) p (Post-at p) negated
    where
      negated :
          (a : Bool) (q : ParserImpl)
          → OnlyAtEof true a q
          → Post (OnlyAtEof false) (pure (if a then false else true) inp q)
      negated true q h = λ e. h refl
      negated false q h = λ e. cc e

  -- The test of the loop of `mod_contents`, for the contents of a file.
  abbrev goes_on : Gram Bool
  goes_on = and (not (at SyntaxKind.eof)) (not (and (pure false) (at SyntaxKind.r_curly)))

  Post-goes_on : (p : ParserImpl) → Post (OnlyAtEof false) (goes_on inp p)
  unfolding and not pure ◌>>=◌
  Post-goes_on p =
      Post-bind (OnlyAtEof false) (OnlyAtEof false) (not (at SyntaxKind.eof))
        (λ a. if a then not (and (pure false) (at SyntaxKind.r_curly)) else pure false) p
        (Post-not_at p) second
    where
      second :
          (a : Bool) (q : ParserImpl)
          → OnlyAtEof false a q
          → Post
              (OnlyAtEof false)
              ((if a then not (and (pure false) (at SyntaxKind.r_curly)) else pure false) inp q)
      second true q h = λ e. cc e
      second false q h = λ e. h refl

  -- A round that ends the loop is at the end of the input.
  abbrev StopsAtEof : Flow (Unit {0}) (Unit {0}) → ParserImpl → Type 0
  StopsAtEof (again s) q = Unit {0}
  StopsAtEof (stop a) q = AtEof q

  module _ (body : Gram (Unit {0})) where
    Post-while_round :
        (p : ParserImpl) → Post StopsAtEof (while_round goes_on (do body; pure true) tt inp p)
    unfolding pure
    Post-while_round p =
        Post-bind (OnlyAtEof false) StopsAtEof goes_on
          (λ more.
            if more
            then ((do body; pure true) >>= λ on. pure (if on then again tt else stop tt))
            else pure (stop tt))
          p (Post-goes_on p) round
      where
        once : (q : ParserImpl) → Post (λ on r. on ≡ true) ((do body; pure true) inp q)
        once q = Post-then (λ on r. on ≡ true) body (λ _. pure true) q (λ _ r. refl)

        again_if :
            (on : Bool) (r : ParserImpl)
            → on ≡ true
            → Post StopsAtEof
                (pure {A = Flow (Unit {0}) (Unit {0})} (if on then again tt else stop tt) inp r)
        again_if true r e = tt
        again_if false r e = cc e

        round :
            (more : Bool) (q : ParserImpl)
            → OnlyAtEof false more q
            → Post StopsAtEof (
                (if more
                    then ((do body; pure true) >>= λ on. pure (if on then again tt else stop tt))
                    else pure (stop tt))
                  inp q)
        round true q h =
            Post-bind (λ on r. on ≡ true) StopsAtEof (do body; pure true)
              (λ on. pure (if on then again tt else stop tt)) q (once q) again_if
        round false q h = h refl

    Post-next_round :
        (rest : Unit {0} → Gram (Unit {0})) (flow : Flow (Unit {0}) (Unit {0})) (q : ParserImpl)
        → ((r : ParserImpl) → Post (λ a s. AtEof s) (rest tt inp r))
        → StopsAtEof flow q
        → Post (λ a r. AtEof r) (next_round rest flow inp q)
    unfolding next_round pure
    Post-next_round rest (again s) q k h = k q
    Post-next_round rest (stop a) q k h = h

    Post-rounds :
        (n : ℕ) (p : ParserImpl)
        → Post (λ a q. AtEof q) (rounds n (while_round goes_on (do body; pure true)) tt inp p)
    unfolding rounds
    Post-rounds zero p = tt
    Post-rounds (suc n) p =
        let rest = rounds n (while_round goes_on (do body; pure true)) in
        Post-bind StopsAtEof (λ a q. AtEof q) (while_round goes_on (do body; pure true) tt)
          (next_round rest) p (Post-while_round p)
          λ flow q h. Post-next_round rest flow q (λ r. Post-rounds n r) h

  Post-mod_contents :
      (g : Grammar) (p : ParserImpl) → Post (λ a q. AtEof q) (mod_contents g false inp p)
  unfolding mod_contents while loop
  Post-mod_contents g p =
      Post-then (λ a q. AtEof q) (inner_attributes g)
        (λ _. while g.fuel goes_on (do item_or_macro g false ItemFlavor.in_mod; pure true)) p
        (λ _ q. Post-rounds (item_or_macro g false ItemFlavor.in_mod) (suc g.fuel) q)

  Post-complete :
      (m : Marker) (kind : SyntaxKind) (p : ParserImpl) (o : Option Event)
      → get_elem? p.events m.pos ≡ o
      → AtEof p
      → Post (λ a q. AtEof q) ((complete m kind >>= λ _. pure {A = Unit {0}} tt) inp p)
  unfolding ◌>>=◌ complete lift pure Api.complete Impl.complete Impl.◌>>=◌ Impl.push_event Impl.pure
  Post-complete m kind p none e h = rw e tt
  Post-complete m kind p (some (start slot fp)) e h = rw e h
  Post-complete m kind p (some finish) e h = rw e tt
  Post-complete m kind p (some (token k n)) e h = rw e tt
  Post-complete m kind p (some (error msg)) e h = rw e tt

  Post-root : (g : Grammar) (p : ParserImpl) → Post (λ a q. AtEof q) (root g inp p)
  unfolding root
  Post-root g p =
      Post-then (λ a q. AtEof q) Ops.start
        (λ m. eat SyntaxKind.shebang >>= λ _.
          mod_contents g false >>= λ _. complete m SyntaxKind.source_file >>= λ _. pure tt)
        p
        λ m q.
          Post-then (λ a r. AtEof r) (eat SyntaxKind.shebang)
            (λ _. mod_contents g false >>= λ _. complete m SyntaxKind.source_file >>= λ _. pure tt)
            q
            λ _ r.
              Post-bind (λ a s. AtEof s) (λ a s. AtEof s) (mod_contents g false)
                (λ _. complete m SyntaxKind.source_file >>= λ _. pure tt) r (Post-mod_contents g r)
                λ _ s h. Post-complete m SyntaxKind.source_file s (get_elem? s.events m.pos) refl h

AtEof-result :
    (inp : ParserInput) (o : Outcome (Unit {0})) (last : ParserImpl)
    → Post (λ a q. AtEof inp q) o
    → result o ≡ some (tt, last)
    → AtEof inp last
AtEof-result inp (returns a q) last h e =
    let same : ◌≡◌ {A = Unit {0} × ParserImpl} (a, q) (tt, last) = cc e in
    subst (AtEof inp) (ap (λ r. r.1) same) h
AtEof-result inp panics last h e = cc e
AtEof-result inp spent last h e = cc e

-- Where the grammar returns, whatever the input and the state it began in, the parser is at the end of
-- the input.
pub parse_root-eof :
    (inp : ParserInput) (p last : ParserImpl)
    → parse_root inp p ≡ some (tt, last)
    → Input.kind inp last.pos ≡ SyntaxKind.eof
unfolding parse_root
parse_root-eof inp p last returned =
    AtEof-result inp (root (grammar enough) inp p) last (Post-root inp (grammar enough) p) returned

into_events-eof :
    (inp : ParserInput) (p : ParserImpl)
    → Input.kind inp p.pos ≡ SyntaxKind.eof
    → p.steps ≤ max_steps
    → into_events inp p ≡ some p.events
unfolding into_events Impl.nth
into_events-eof inp p e h =
    let here : Input.kind inp (p.pos + 0) ≡ SyntaxKind.eof =
      subst (λ k. Input.kind inp k ≡ SyntaxKind.eof) {x = p.pos} {y = p.pos + 0} (omega arith) e in
    let within : leb p.steps max_steps ≡ true = ground (arith, h) in
    let same : (Input.kind inp (p.pos + 0) == SyntaxKind.eof) ≡ true =
      (==_iff _ SyntaxKind.eof).1 here in
    rw (within, same) refl

-- Lex a text and run the grammar on it. Where it returns without having used up the lookaheads that the
-- parser allows, nothing behind it panics: the parser is at the end of the input and gives its events,
-- `parse_with` plays them back, and the texts of the leaves that it puts into the tree, in order, are
-- the text.
pub parse_root_within-BuildsText :
    (xid : UnicodeXid) (text : List ℕ) (tokens : List Token) (last : ParserImpl)
    → tokenize xid text ≡ some tokens
    → parse_root (Input.new text tokens) Impl.new ≡ some (tt, last)
    → last.steps ≤ max_steps
    → BuildsText text (parse_with text tokens parse_root)
parse_root_within-BuildsText xid text tokens last lexed returned within =
    let inp = Input.new text tokens in
    parse_root-BuildsText xid text tokens last last.events lexed returned
      (into_events-eof inp last (parse_root-eof inp Impl.new last returned) within)
