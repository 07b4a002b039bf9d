-- ===== src/Parser/Process/Start.antt =====
-- Starting a branch (crates/ra_syntax/src/parser_impl/event.rs): the trivia before it is put down
-- whole, part of it before the branch and part inside, and nothing panics.
use mathlib.Core.List.{reverse}
use rust_analyzer.Base.{
  subst, ℕ, zero, suc, ◌+◌, ◌-◌, ◌≤◌, ◌≡◌, refl, ◌∙◌, sym, ap, Bool, true, false, List, [], ◌∷◌,
  ◌++◌, append_assoc, Option, some, arith, if◌then◌else◌, length, drop, take, ◌>>=◌, Bool-cases,
  inl, inr, take-append-drop, length-take, length-drop, length-reverse_aux, ◌==◌, reverse_aux,
}
use rust_analyzer.Base.Str.{str_len, str_len-append, slice-append, contains}
use rust_analyzer.SyntaxKind
use rust_analyzer.SyntaxKind.{SyntaxKind}
use rust_analyzer.Lexer.Tokenize.{Token}
use rust_analyzer.Parser.Process.{
  Processor, Trivia, call, sum_len, take_trivias, trivia_texts, count_attached, n_attached_trivias,
  attaches_trivias, eat_n_trivias, start, start_all,
}
use rust_analyzer.Parser.Sink.{SinkCall}
use rust_analyzer.Parser.Process.Cursor.{
  leaf_texts, Covers, covers_cons, At, At-call, Reaches, Reaches-bind, Reaches-here,
}
use rust_analyzer.Parser.Process.Trivia.{
  skip_trivias, AllTrivia, take-append-skip, AllTrivia-take_trivias, skip_trivias_idem,
  Reaches-eat_n_trivias,
}

-- Every text could be cut out.
abbrev AllCut : List Trivia → Type 0
AllCut [] = Unit {0}
AllCut ((kind, text) ∷ ts) = ((t : List ℕ) × (text ≡ some t)) × AllCut ts

-- Read backwards, the tokens end at the offset `end` of the text.
data Backwards (text : List ℕ) : List Token → ℕ → Type 0 where
  from_start : (end : ℕ) → Backwards text [] end
  back :
      {token : Token} {ts : List Token} {end : ℕ} (before piece after : List ℕ)
      → text ≡ before ++ (piece ++ after)
      → token.len ≡ str_len piece
      → end ≡ str_len before + str_len piece
      → Backwards text ts (str_len before)
      → Backwards text (token ∷ ts) end

module _ (text : List ℕ) where
  AllCut-trivia_texts :
      (ts : List Token) (end : ℕ) → Backwards text ts end → AllCut (trivia_texts text ts end)
  unfolding trivia_texts
  AllCut-trivia_texts [] end b = tt
  AllCut-trivia_texts (t ∷ ts) end (back before piece after e m l b) =
      let begin : end - t.len ≡ str_len before = omega arith in
      rw begin (
        (
          (piece, rw (e, m) (slice-append before piece after)),
          AllCut-trivia_texts ts (str_len before) b,
        ))

  -- The pieces of tokens that stand one after another, read backwards.
  Backwards-reverse :
      (us vs acc : List Token) (before todo : List ℕ) (end : ℕ)
      → text ≡ before ++ todo
      → Covers (us ++ vs) todo
      → end ≡ str_len before + sum_len us
      → Backwards text acc (str_len before)
      → Backwards text (reverse_aux us acc) end
  unfolding sum_len
  Backwards-reverse [] vs acc before todo end e c l b =
      let here : end ≡ str_len before = omega arith in rw here b
  Backwards-reverse (u ∷ us) vs acc before todo end e (covers_cons piece rest d m c) l b =
      let longer : str_len (before ++ piece) ≡ str_len before + str_len piece =
        str_len-append before piece in
      Backwards-reverse us vs (u ∷ acc) (before ++ piece) rest end
        (e ∙ ap (λ t. before ++ t) d ∙ sym (append_assoc before piece rest)) c (omega arith)
        (back before piece rest (e ∙ ap (λ t. before ++ t) d) m longer b)

-- At most every trivium is attached.
pub record Attached (n : ℕ) (o : Option ℕ) : Type 0 where
  pub count : ℕ
  pub returned : o ≡ some count
  pub bounded : count ≤ n

Attached-widen : {m n : ℕ} {o : Option ℕ} → Attached m o → m ≤ n → Attached n o
Attached-widen a h = record {
  count = a.count;
  returned = a.returned;
  bounded = omega (arith, a.bounded);
}

Attached-if :
    {n : ℕ} (b : Bool) (x y : Option ℕ)
    → Attached n x
    → Attached n y
    → Attached n (if b then x else y)
Attached-if true x y hx hy = hx
Attached-if false x y hx hy = hy

Attached-count :
    (ts : List Trivia) (i res : ℕ)
    → AllCut ts
    → res ≤ i
    → Attached (i + length ts) (count_attached ts i res)
unfolding count_attached
Attached-count [] i res h le = record { count = res; returned = refl; bounded = omega arith }
Attached-count ((kind, o) ∷ ts) i res ((t, e), h) le =
    let go_on = Attached-count ts (i + 1) res h (omega arith) in
    let attach = Attached-count ts (i + 1) (i + 1) h (omega arith) in
    rw e (
      Attached-if (kind == SyntaxKind.whitespace) _ _
        (Attached-if (contains t (10 ∷ 10 ∷ [])) _ _
          (record { count = res; returned = refl; bounded = omega arith })
          (Attached-widen go_on (omega arith)))
        (Attached-if (kind == SyntaxKind.comment) _ _ (Attached-widen attach (omega arith))
          (Attached-widen go_on (omega arith))))

length-trivia_texts :
    (text : List ℕ) (ts : List Token) (end : ℕ) → length (trivia_texts text ts end) ≡ length ts
unfolding trivia_texts
length-trivia_texts text [] end = refl
length-trivia_texts text (t ∷ ts) end = ap suc (length-trivia_texts text ts (end - t.len))

AllTrivia-take : (n : ℕ) (ts : List Token) → AllTrivia ts → AllTrivia (take n ts)
AllTrivia-take zero ts h = tt
AllTrivia-take (suc n) [] h = tt
AllTrivia-take (suc n) (t ∷ ts) h = (h.0, AllTrivia-take n ts h.1)

AllTrivia-drop : (n : ℕ) (ts : List Token) → AllTrivia ts → AllTrivia (drop n ts)
AllTrivia-drop zero ts h = h
AllTrivia-drop (suc n) [] h = tt
AllTrivia-drop (suc n) (t ∷ ts) h = AllTrivia-drop n ts h.1

-- The trivia before a branch can be cut out and counted.
Attached-leading :
    (text : List ℕ) (kind : SyntaxKind) (before todo : List ℕ) (us vs : List Token)
    → text ≡ before ++ todo
    → Covers (us ++ vs) todo
    → Attached
        (length us)
        (n_attached_trivias kind (trivia_texts text (reverse us) (str_len before + sum_len us)))
unfolding n_attached_trivias
Attached-leading text kind before todo us vs e c =
    let texts = trivia_texts text (reverse us) (str_len before + sum_len us) in
    let cuts : AllCut texts = AllCut-trivia_texts text (reverse us) (str_len before + sum_len us) (
      Backwards-reverse text us vs [] before todo (str_len before + sum_len us) e c refl
        (from_start (str_len before))) in
    let n : length texts ≡ length us = omega (
      arith,
      length-trivia_texts text (reverse us) (str_len before + sum_len us),
      length-reverse_aux us [],
    ) in
    Attached-if (attaches_trivias kind) _ _
      (Attached-widen (Attached-count texts 0 0 cuts (omega arith)) (omega arith))
      (record { count = 0; returned = refl; bounded = omega arith })

module _ (text : List ℕ) (tokens : List Token) where
  -- A branch starts with the same solid tokens to come.
  pub record Starts (left : List Token) (o : Option Processor) : Type 0 where
    pub left' : List Token
    pub reaches : Reaches text tokens left' o
    pub same : skip_trivias left' ≡ skip_trivias left

  start_before :
      (kind : SyntaxKind) (p : Processor) (m : ℕ) (us vs : List Token)
      → m ≤ length us
      → AllTrivia us
      → At text tokens (us ++ vs) p
      → Reaches text tokens vs (
          eat_n_trivias text tokens (length us - m) p >>= λ q.
          eat_n_trivias text tokens m (call (SinkCall.start_branch kind) q))
  start_before kind p m us vs le h a =
      let k : ℕ = length us - m in
      let front : length (take k us) ≡ k = length-take k us (omega arith) in
      let rear : length (drop k us) ≡ m = omega (arith, length-drop k us (omega arith)) in
      let whole : us ++ vs ≡ take k us ++ (drop k us ++ vs) =
        ap (λ t. t ++ vs) (sym (take-append-drop k us)) ∙ append_assoc (take k us) (drop k us) vs in
      Reaches-bind text tokens (eat_n_trivias text tokens k p) _
        (rw front at (
          Reaches-eat_n_trivias text tokens (take k us) (drop k us ++ vs) p (AllTrivia-take k us h)
            (rw whole at a)))
        (λ q b. rw rear at (
          Reaches-eat_n_trivias text tokens (drop k us) vs _ (AllTrivia-drop k us h)
            (At-call text tokens (SinkCall.start_branch kind) q tt b)))

  after_trivias :
      (kind : SyntaxKind) (left : List Token) (p : Processor)
      → At text tokens left p
      → Starts left (
          n_attached_trivias kind (
            trivia_texts text
              (reverse (take_trivias left))
              (p.text_pos + sum_len (take_trivias left)))
          >>= λ m. eat_n_trivias text tokens (length (take_trivias left) - m) p >>= λ q.
              eat_n_trivias text tokens m (call (SinkCall.start_branch kind) q))
  after_trivias kind left p a =
      let us = take_trivias left in
      let vs = skip_trivias left in
      let whole : left ≡ us ++ vs = sym (take-append-skip left) in
      let m =
        Attached-leading text kind (leaf_texts p.sink) a.todo us vs (sym a.splits)
          (subst (λ l. Covers l a.todo) whole a.covers) in
      let counted : n_attached_trivias kind
            (trivia_texts text (reverse us) (p.text_pos + sum_len us))
          ≡ some m.count =
        ap (λ o. n_attached_trivias kind (trivia_texts text (reverse us) (o + sum_len us))) a.offset
        ∙ m.returned in
      rw counted (record {
        left' = vs;
        reaches =
            start_before kind p m.count us vs m.bounded (AllTrivia-take_trivias left)
              (subst (λ l. At text tokens l p) whole a);
        same = skip_trivias_idem left;
      })

  -- Where the leaves so far are the text before the position and the next tokens cover the rest,
  -- `start` does not panic, keeps that so, and passes over trivia only.
  pub Starts-start :
      (kind : SyntaxKind) (left : List Token) (p : Processor)
      → At text tokens left p
      → Starts left (start text tokens kind p)
  unfolding start
  Starts-start kind left p a = elim (Bool-cases (kind == SyntaxKind.source_file)) [
    | inl e ↦ rw e (record {
      left' = left;
      reaches =
          Reaches-here text tokens _ (At-call text tokens (SinkCall.start_branch kind) p tt a);
      same = refl;
    })
    | inr e ↦ rw (e, a.tokens_left) (after_trivias kind left p a)
  ]

  -- So for all branches that start at one event.
  pub Starts-start_all :
      (kinds : List SyntaxKind) (left : List Token) (p : Processor)
      → At text tokens left p
      → Starts left (start_all text tokens kinds p)
  unfolding start_all
  Starts-start_all [] left p a = record {
    left' = left;
    reaches = Reaches-here text tokens p a;
    same = refl;
  }
  Starts-start_all (kind ∷ kinds) left p a =
      let first = Starts-start kind left p a in
      let rest = Starts-start_all kinds first.left' first.reaches.next first.reaches.at in
      rw first.reaches.returned
        (record { left' = rest.left'; reaches = rest.reaches; same = rest.same ∙ first.same })
