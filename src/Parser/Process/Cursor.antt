-- ===== src/Parser/Process/Cursor.antt =====
-- The place of the event processor in text and tokens (crates/ra_syntax/src/parser_impl/event.rs).
use rust_analyzer.Base.{
  ℕ, ◌≡◌, refl, List, [], ◌∷◌, ◌++◌, append_assoc, Option, some, arith, drop, length, sym, ◌∙◌, ap,
  ◌+◌, drop-drop, drop-length, append-nil, ◌>>=◌,
}
use rust_analyzer.Base.Str.{str_len, str_len-append, slice, slice-append}
use rust_analyzer.Lexer.Tokenize.{Token}
use rust_analyzer.Parser.Sink.{SinkCall, leaf, start_branch, finish_branch, error}
use rust_analyzer.Parser.Process
use rust_analyzer.Parser.Process.{Processor, sum_len, SyntaxKind, call}

-- The text of all leaves, in order.
unfoldable pub leaf_texts : List SinkCall → List ℕ
leaf_texts [] = []
leaf_texts (leaf kind text ∷ calls) = text ++ leaf_texts calls
leaf_texts (start_branch kind ∷ calls) = leaf_texts calls
leaf_texts (finish_branch ∷ calls) = leaf_texts calls
leaf_texts (error msg offset ∷ calls) = leaf_texts calls

pub leaf_texts-append :
    (cs ds : List SinkCall) → leaf_texts (cs ++ ds) ≡ leaf_texts cs ++ leaf_texts ds
unfolding leaf_texts
leaf_texts-append [] ds = refl
leaf_texts-append (leaf kind text ∷ cs) ds = rw (leaf_texts-append cs ds, append_assoc)
leaf_texts-append (start_branch kind ∷ cs) ds = leaf_texts-append cs ds
leaf_texts-append (finish_branch ∷ cs) ds = leaf_texts-append cs ds
leaf_texts-append (error msg offset ∷ cs) ds = leaf_texts-append cs ds

pub leaf_texts-leaf :
    (cs : List SinkCall) (kind : SyntaxKind) (text : List ℕ)
    → leaf_texts (cs ++ leaf kind text ∷ []) ≡ leaf_texts cs ++ text
unfolding leaf_texts
leaf_texts-leaf cs kind text = rw (leaf_texts-append, append-nil)

-- The calls that add no text.
abbrev pub IsSilent : SinkCall → Type 0
IsSilent (leaf kind text) = ⊥
IsSilent _ = Unit {0}

pub leaf_texts-silent :
    (cs : List SinkCall) (c : SinkCall) → IsSilent c → leaf_texts (cs ++ c ∷ []) ≡ leaf_texts cs
unfolding leaf_texts
leaf_texts-silent cs (leaf kind text) h = absurd h
leaf_texts-silent cs _ h = rw (leaf_texts-append, append-nil)

-- The tokens have the lengths of pieces that make up the text.
pub data Covers : List Token → List ℕ → Type 0 where
  covers_nil : Covers [] []
  covers_cons :
      {token : Token} {tokens : List Token} {text : List ℕ} (piece rest : List ℕ)
      → text ≡ piece ++ rest
      → token.len ≡ str_len piece
      → Covers tokens rest
      → Covers (token ∷ tokens) text

-- The text of some tokens and of those after them.
pub record Cut (us vs : List Token) (text : List ℕ) : Type 0 where
  pub piece : List ℕ
  pub rest : List ℕ
  pub splits : text ≡ piece ++ rest
  pub measured : sum_len us ≡ str_len piece
  pub covers : Covers vs rest

pub Covers-append : (us vs : List Token) {text : List ℕ} → Covers (us ++ vs) text → Cut us vs text
unfolding sum_len str_len
Covers-append [] vs {text} c = record {
  piece = [];
  rest = text;
  splits = refl;
  measured = refl;
  covers = c;
}
Covers-append (u ∷ us) vs (covers_cons piece rest e m c) =
    let cut = Covers-append us vs c in
    record {
      piece = piece ++ cut.piece;
      rest = cut.rest;
      splits = rw (e, cut.splits, append_assoc);
      measured = omega (arith, str_len-append piece cut.piece, cut.measured);
      covers = cut.covers;
    }

module _ (text : List ℕ) (tokens : List Token) where
  -- The leaves so far are the text before the position; the tokens from `token_pos` on are `left`.
  pub record At (left : List Token) (p : Processor) : Type 0 where
    pub todo : List ℕ
    pub splits : leaf_texts p.sink ++ todo ≡ text
    pub offset : p.text_pos ≡ str_len (leaf_texts p.sink)
    pub covers : Covers left todo
    pub tokens_left : drop p.token_pos tokens ≡ left

  -- The step did not panic, and the position is before `left`.
  pub record Reaches (left : List Token) (o : Option Processor) : Type 0 where
    pub next : Processor
    pub returned : o ≡ some next
    pub at : At left next

  -- Putting down a leaf of the next tokens.
  pub Reaches-leaf :
      (kind : SyntaxKind) (us vs : List Token) (p : Processor)
      → At (us ++ vs) p
      → Reaches vs (Process.leaf text tokens kind (sum_len us) (length us) p)
  unfolding Process.leaf
  Reaches-leaf kind us vs p a =
      let cut = Covers-append us vs a.covers in
      let whole : text ≡ leaf_texts p.sink ++ (cut.piece ++ cut.rest) =
        sym a.splits ∙ ap (λ t. leaf_texts p.sink ++ t) cut.splits in
      let cut_out : slice text p.text_pos (sum_len us) ≡ some cut.piece =
        rw (whole, a.offset, cut.measured) (slice-append (leaf_texts p.sink) cut.piece cut.rest) in
      record {
        next = record {
          sink = p.sink ++ leaf kind cut.piece ∷ [];
          text_pos = p.text_pos + sum_len us;
          token_pos = p.token_pos + length us;
        };
        returned = rw cut_out;
        at = record {
          todo = cut.rest;
          splits = rw (leaf_texts-leaf p.sink kind cut.piece, append_assoc) (sym whole);
          offset =
              rw (leaf_texts-leaf p.sink kind cut.piece) (
                omega
                  (arith, a.offset, cut.measured, str_len-append (leaf_texts p.sink) cut.piece));
          covers = cut.covers;
          tokens_left =
              sym (drop-drop p.token_pos (length us) (p.token_pos + length us) tokens refl)
              ∙ ap (drop (length us)) a.tokens_left
              ∙ drop-length us vs;
        };
      }

  pub At-call :
      {left : List Token} (c : SinkCall) (p : Processor)
      → IsSilent c
      → At left p
      → At left (call c p)
  At-call c p h a = record {
    todo = a.todo;
    splits = rw (leaf_texts-silent p.sink c h) a.splits;
    offset = rw (leaf_texts-silent p.sink c h) a.offset;
    covers = a.covers;
    tokens_left = a.tokens_left;
  }

  -- One step after another.
  pub Reaches-bind :
      {mid left : List Token} (o : Option Processor) (f : Processor → Option Processor)
      → Reaches mid o
      → ((q : Processor) → At mid q → Reaches left (f q))
      → Reaches left (o >>= f)
  Reaches-bind o f r k = rw r.returned (k r.next r.at)

  pub Reaches-here : {left : List Token} (p : Processor) → At left p → Reaches left (some p)
  Reaches-here p a = record { next = p; returned = refl; at = a }

  -- A single token as a leaf.
  pub Reaches-one :
      (token : Token) (vs : List Token) (p : Processor)
      → At (token ∷ vs) p
      → Reaches vs (Process.leaf text tokens token.kind token.len 1 p)
  Reaches-one token vs p a =
      let one : sum_len (token ∷ []) ≡ token.len = unfold sum_len in omega arith in
      rw one at (Reaches-leaf token.kind (token ∷ []) vs p a)
