-- ===== src/Parser/Steps/RawPairs.antt =====
-- What `next2` and `next3` of crates/ra_syntax/src/parser_impl.rs say of the raw tokens.
use rust_analyzer.Base.{
  ℕ, ◌+◌, ◌<◌, ◌≡◌, refl, ◌∙◌, sym, ap, subst, List, [], ◌∷◌, Option, none, some, arith, drop,
  drop-drop, get_elem?, if◌then◌else◌, true, false, Bool, ◌==◌, ◌||◌, Bool-cases, inl, inr, zero,
  suc, drop-nil,
}
use rust_analyzer.SyntaxKind.{SyntaxKind, is_trivia, eof}
use rust_analyzer.Lexer.Tokenize.{Token}
use rust_analyzer.Parser.Input
use rust_analyzer.Parser.Input.{ParserInput, kind_or_eof, or_zero, len_or_zero}
use rust_analyzer.Parser.Impl.{ParserImpl, next2, next3, joined}
use rust_analyzer.Parser.Process.Trivia.{skip_trivias}
use rust_analyzer.Parser.Steps.Fit.{Fit}
use rust_analyzer.Parser.Steps.Takes.{solids}
use rust_analyzer.Parser.Steps.Aligned.{offsets, AllPos, Aligned}
use rust_analyzer.Parser.Steps.Joined.{
  first, first-offsets, solids-cons, Aligned-next, Aligned-Behind, joined-offsets, or_zero-drop,
  len_or_zero-drop, first_len,
}

-- Two raw tokens that touch, in the grammar's eyes: no trivia between them. At the end of the input
-- it sees ends of the input, which touch.
unfoldable pub raw_pair : List Token → Option (SyntaxKind × SyntaxKind)
raw_pair [] = some (eof, eof)
raw_pair (t ∷ []) = none
raw_pair (t ∷ u ∷ rest) = if is_trivia u.kind then none else some (t.kind, u.kind)

-- The same for three.
unfoldable pub raw_triple : List Token → Option (SyntaxKind × SyntaxKind × SyntaxKind)
raw_triple [] = some (eof, eof, eof)
raw_triple (t ∷ []) = none
raw_triple (t ∷ u ∷ []) = none
raw_triple (t ∷ u ∷ v ∷ rest) =
    if is_trivia u.kind || is_trivia v.kind then none else some (t.kind, u.kind, v.kind)

abbrev solid_next : List Token → Bool
solid_next [] = false
solid_next (t ∷ ts) = if is_trivia t.kind then false else true

abbrev first_kind : List Token → SyntaxKind
first_kind [] = eof
first_kind (t ∷ ts) = t.kind

kind_or_eof-drop : (ts : List Token) (n : ℕ) → kind_or_eof (get_elem? ts n) ≡ first_kind (drop n ts)
kind_or_eof-drop [] zero = refl
kind_or_eof-drop [] (suc n) = refl
kind_or_eof-drop (x ∷ xs) zero = refl
kind_or_eof-drop (x ∷ xs) (suc n) = kind_or_eof-drop xs n

-- The next token starts here exactly if it is no trivia.
first-solid_next :
    (o : ℕ) (ts : List Token) → 0 < o → AllPos ts → (first (offsets o ts) == o) ≡ solid_next ts
unfolding offsets
first-solid_next o [] pos all = ground arith
first-solid_next o (t ∷ ts) pos all = elim (Bool-cases (is_trivia t.kind)) [
  | inl h ↦ ground (arith, h, all.0, first-offsets (o + t.len) ts)
  | inr h ↦ ground (arith, h)
]

module _ (inp : ParserInput) (pos : ℕ) where
  kind_ahead : (n : ℕ) (ts : List Token) → drop n inp.tokens ≡ ts → Input.kind inp n ≡ first_kind ts
  unfolding Input.kind
  kind_ahead n ts e = kind_or_eof-drop inp.tokens n ∙ ap first_kind e

  drop_past : {A : Type 0} (n : ℕ) (xs : List A) → drop pos xs ≡ [] → drop (pos + n) xs ≡ []
  drop_past n xs e = sym (drop-drop pos n (pos + n) xs refl) ∙ ap (drop n) e ∙ drop-nil n

  -- Behind the last token, every token is an end of the input, and all of them touch.
  module _ (a : Aligned inp [] pos) where
    no_tokens : (n : ℕ) → drop (pos + n) inp.tokens ≡ []
    unfolding solids
    no_tokens n = drop_past n inp.tokens (sym a.ahead)

    kind_at_end : (n : ℕ) → Input.kind inp (pos + n) ≡ eof
    kind_at_end n = kind_ahead (pos + n) [] (no_tokens n)

    kind_here_at_end : Input.kind inp pos ≡ eof
    kind_here_at_end =
        subst (λ k. Input.kind inp k ≡ eof) {x = pos + 0} {y = pos} (omega arith) (kind_at_end 0)

    offset_at_end : (n : ℕ) → or_zero (get_elem? inp.start_offsets (pos + n)) ≡ 0
    unfolding offsets
    offset_at_end n =
        or_zero-drop inp.start_offsets (pos + n)
        ∙ ap first (drop_past n inp.start_offsets (sym a.starts))

    joined_at_end : (n : ℕ) → joined inp pos n ≡ true
    unfolding joined Input.token_start_at Input.token_len
    joined_at_end n =
        let len : len_or_zero (get_elem? inp.tokens (pos + n)) ≡ 0 =
          len_or_zero-drop inp.tokens (pos + n) ∙ ap first_len (no_tokens n) in
        let next : or_zero (get_elem? inp.start_offsets (pos + n + 1)) ≡ 0 =
          subst (λ k. or_zero (get_elem? inp.start_offsets k) ≡ 0) {x = pos + (n + 1)}
            {y = pos + n + 1} (omega arith) (offset_at_end (n + 1)) in
        rw (offset_at_end n, len, next) refl

  module _ (t : Token) (behind : List Token) (a : Aligned inp (t ∷ behind) pos) where
    joined-solid_next : joined inp pos 0 ≡ solid_next behind
    joined-solid_next =
        joined-offsets inp t behind pos a
        ∙ first-solid_next (a.from + t.len) behind (omega (arith, a.positive.0)) a.positive.1

    kind_here : Input.kind inp pos ≡ t.kind
    kind_here = kind_ahead pos (t ∷ solids behind) (solids-cons inp t behind pos a)

    kind_next : Input.kind inp (pos + 1) ≡ first_kind (solids behind)
    kind_next = kind_ahead (pos + 1) (solids behind) (sym (Aligned-Behind inp t behind pos a).ahead)

raw_pair-if :
    (t : Token) (behind : List Token)
    → (if solid_next behind then some (t.kind, first_kind (solids behind)) else none)
      ≡ raw_pair (t ∷ behind)
unfolding raw_pair solids
raw_pair-if t [] = refl
raw_pair-if t (u ∷ rest) = elim (Bool-cases (is_trivia u.kind)) [
  | inl h ↦ rw h refl
  | inr h ↦ rw h refl
]

next2-Aligned :
    (inp : ParserInput) (p : ParserImpl) (rest : List Token)
    → Aligned inp rest p.pos
    → next2 inp p ≡ some (raw_pair rest, p)
unfolding next2 raw_pair
next2-Aligned inp p [] a =
    rw (joined_at_end inp p.pos a 0, kind_here_at_end inp p.pos a, kind_at_end inp p.pos a 1) refl
next2-Aligned inp p (t ∷ behind) a =
    rw
      (
        joined-solid_next inp p.pos t behind a,
        kind_here inp p.pos t behind a,
        kind_next inp p.pos t behind a,
      )
      (ap (λ o. some (o, p)) (raw_pair-if t behind))

raw_triple-if :
    (t u : Token) (behind : List Token)
    → is_trivia u.kind ≡ false
    → (if solid_next behind then some (t.kind, u.kind, first_kind (solids behind)) else none)
      ≡ raw_triple (t ∷ u ∷ behind)
unfolding raw_triple solids
raw_triple-if t u [] h = refl
raw_triple-if t u (v ∷ rest) h = elim (Bool-cases (is_trivia v.kind)) [
  | inl k ↦ rw (h, k) refl
  | inr k ↦ rw (h, k) refl
]

raw_triple-trivia :
    (t u : Token) (behind : List Token)
    → is_trivia u.kind ≡ true
    → raw_triple (t ∷ u ∷ behind) ≡ none
unfolding raw_triple
raw_triple-trivia t u [] h = refl
raw_triple-trivia t u (v ∷ rest) h = rw h refl

-- The third token, where the second is no trivia.
module _ (inp : ParserInput) (pos : ℕ) (t u : Token) (behind : List Token)
    (a : Aligned inp (t ∷ u ∷ behind) pos) (solid : is_trivia u.kind ≡ false) where
  Aligned-second : Aligned inp (u ∷ behind) (pos + 1)
  unfolding skip_trivias
  Aligned-second =
      subst (λ r. Aligned inp r (pos + 1)) (ground (arith, solid))
        (Aligned-next inp t (u ∷ behind) pos a)

  joined-third : joined inp pos 1 ≡ solid_next behind
  unfolding joined
  joined-third =
      let second = joined-solid_next inp (pos + 1) u behind Aligned-second in
      subst
        (λ k.
          (Input.token_start_at inp (k + 1) == Input.token_start_at inp k + Input.token_len inp k)
          ≡ solid_next behind)
        {x = pos + 1 + 0} {y = pos + 1} (omega arith) second

  kind_third : Input.kind inp (pos + 2) ≡ first_kind (solids behind)
  kind_third =
      subst (λ k. Input.kind inp k ≡ first_kind (solids behind)) {x = pos + 1 + 1} {y = pos + 2}
        (omega arith) (kind_next inp (pos + 1) u behind Aligned-second)

next3-Aligned :
    (inp : ParserInput) (p : ParserImpl) (rest : List Token)
    → Aligned inp rest p.pos
    → next3 inp p ≡ some (raw_triple rest, p)
unfolding next3 raw_triple
next3-Aligned inp p [] a =
    rw
      (
        joined_at_end inp p.pos a 0,
        joined_at_end inp p.pos a 1,
        kind_here_at_end inp p.pos a,
        kind_at_end inp p.pos a 1,
        kind_at_end inp p.pos a 2,
      )
      refl
next3-Aligned inp p (t ∷ []) a = rw (joined-solid_next inp p.pos t [] a) refl
next3-Aligned inp p (t ∷ u ∷ behind) a = elim (Bool-cases (is_trivia u.kind)) [
  | inl h ↦
      rw (joined-solid_next inp p.pos t (u ∷ behind) a, h, raw_triple-trivia t u behind h) refl
  | inr h ↦
      let here = kind_here inp p.pos t (u ∷ behind) a in
      let second = kind_here inp (p.pos + 1) u behind (Aligned-second inp p.pos t u behind a h) in
      rw
        (
          joined-solid_next inp p.pos t (u ∷ behind) a,
          h,
          joined-third inp p.pos t u behind a h,
          here,
          second,
          kind_third inp p.pos t u behind a h,
        )
        (ap (λ o. some (o, p)) (raw_triple-if t u behind h))
]

-- In a fit state, `next2` gives the kinds of the current raw token and of the one right behind it,
-- unless that is trivia or there is none; at the end of the input it gives two ends of the input. The
-- state stays the same.
pub next2-raw_pair :
    (tokens : List Token) (inp : ParserInput) (p : ParserImpl) (f : Fit tokens inp p)
    → next2 inp p ≡ some (raw_pair f.rest, p)
next2-raw_pair tokens inp p f = next2-Aligned inp p f.rest f.aligned

-- In a fit state, `next3` gives the kinds of the current raw token and of the two right behind it,
-- unless one of these is trivia or missing; at the end of the input it gives three ends of the
-- input. The state stays the same.
pub next3-raw_triple :
    (tokens : List Token) (inp : ParserInput) (p : ParserImpl) (f : Fit tokens inp p)
    → next3 inp p ≡ some (raw_triple f.rest, p)
next3-raw_triple tokens inp p f = next3-Aligned inp p f.rest f.aligned
