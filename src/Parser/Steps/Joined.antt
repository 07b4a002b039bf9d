-- ===== src/Parser/Steps/Joined.antt =====
-- Tokens that touch one another (`next2`, `next3` and `bump_compound` of
-- crates/ra_syntax/src/parser_impl.rs) have no trivia between them.
use rust_analyzer.Base.{
  ℕ, zero, suc, ◌+◌, ◌≤◌, ◌<◌, ◌≡◌, refl, ◌∙◌, sym, ap, subst, List, [], ◌∷◌, arith, length, drop,
  drop-drop, get_elem?, if◌then◌else◌, true, false, Bool, Bool-cases, inl, inr, ◌⊎◌, ◌==◌, ==_iff,
}
use rust_analyzer.SyntaxKind.{is_trivia}
use rust_analyzer.Lexer.Tokenize.{Token}
use rust_analyzer.Parser.Input
use rust_analyzer.Parser.Input.{ParserInput, or_zero, len_or_zero}
use rust_analyzer.Parser.Impl.{joined}
use rust_analyzer.Parser.Process.Trivia.{skip_trivias}
use rust_analyzer.Parser.Steps.{Touching}
use rust_analyzer.Parser.Steps.Takes.{solids, length-skip_trivias}
use rust_analyzer.Parser.Steps.Aligned.{offsets, AllPos, Aligned, Behind, Aligned-skip_trivias}

-- The first entry, or zero.
abbrev pub first : List ℕ → ℕ
first [] = 0
first (x ∷ xs) = x

pub or_zero-drop : (xs : List ℕ) (n : ℕ) → or_zero (get_elem? xs n) ≡ first (drop n xs)
or_zero-drop [] zero = refl
or_zero-drop [] (suc n) = refl
or_zero-drop (x ∷ xs) zero = refl
or_zero-drop (x ∷ xs) (suc n) = or_zero-drop xs n

abbrev pub first_len : List Token → ℕ
first_len [] = 0
first_len (t ∷ ts) = t.len

pub len_or_zero-drop :
    (ts : List Token) (n : ℕ) → len_or_zero (get_elem? ts n) ≡ first_len (drop n ts)
len_or_zero-drop [] zero = refl
len_or_zero-drop [] (suc n) = refl
len_or_zero-drop (x ∷ xs) zero = refl
len_or_zero-drop (x ∷ xs) (suc n) = len_or_zero-drop xs n

-- A later token does not start before.
pub first-offsets :
    (o : ℕ) (ts : List Token) → (first (offsets o ts) ≡ 0) ⊎ (o ≤ first (offsets o ts))
unfolding offsets
first-offsets o [] = inl refl
first-offsets o (t ∷ ts) = ground (arith, first-offsets (o + t.len) ts)

-- A token that is no trivia stands first.
pub record StartsSolid (ts : List Token) : Type 0 where
  pub head : Token
  pub tail : List Token
  pub splits : ts ≡ head ∷ tail
  pub solid : is_trivia head.kind ≡ false

StartsSolid-offsets :
    (o : ℕ) (ts : List Token) → 0 < o → AllPos ts → first (offsets o ts) ≡ o → StartsSolid ts
unfolding offsets
StartsSolid-offsets o [] pos all e = absurd (omega (arith, e))
StartsSolid-offsets o (t ∷ ts) pos all e = elim (Bool-cases (is_trivia t.kind)) [
  | inl h ↦ absurd (ground (arith, h, e, all.0, first-offsets (o + t.len) ts))
  | inr h ↦ record { head = t; tail = ts; splits = refl; solid = h }
]

pub StartsSolid-clean : (ts : List Token) → StartsSolid ts → skip_trivias ts ≡ ts
unfolding skip_trivias
StartsSolid-clean ts s = rw s.splits (ground (arith, s.solid))

solid_if_clean :
    (b : Bool) (t : Token) (ts : List Token)
    → (if b then skip_trivias ts else t ∷ ts) ≡ t ∷ ts
    → b ≡ false
solid_if_clean true t ts e = absurd (omega (arith, ap length e, length-skip_trivias ts))
solid_if_clean false t ts e = refl

pub solid_of_clean :
    (t : Token) (ts : List Token) → skip_trivias (t ∷ ts) ≡ t ∷ ts → is_trivia t.kind ≡ false
unfolding skip_trivias
solid_of_clean t ts e = solid_if_clean (is_trivia t.kind) t ts e

drop-tail :
    {A : Type 0} (n : ℕ) (xs ys : List A) (y : A) → drop n xs ≡ y ∷ ys → drop (n + 1) xs ≡ ys
drop-tail n xs ys y e = sym (drop-drop n 1 (n + 1) xs refl) ∙ ap (drop 1) e

module _ (inp : ParserInput) (t : Token) (behind : List Token) (pos : ℕ)
    (a : Aligned inp (t ∷ behind) pos) where
  pub solids-cons : drop pos inp.tokens ≡ t ∷ solids behind
  unfolding solids
  solids-cons = sym a.ahead ∙ ground (arith, solid_of_clean t behind a.clean)

  offsets-cons : drop pos inp.start_offsets ≡ a.from ∷ offsets (a.from + t.len) behind
  unfolding offsets
  offsets-cons = sym a.starts ∙ ground (arith, solid_of_clean t behind a.clean)

  offsets-behind : offsets (a.from + t.len) behind ≡ drop (pos + 1) inp.start_offsets
  offsets-behind =
      sym (drop-tail pos inp.start_offsets (offsets (a.from + t.len) behind) a.from offsets-cons)

  pub Aligned-Behind : Behind inp behind (pos + 1)
  Aligned-Behind = record {
    ahead = sym (drop-tail pos inp.tokens (solids behind) t solids-cons);
    from = a.from + t.len;
    starts = offsets-behind;
    positive = a.positive.1;
  }

  -- A token touches the current one where its offset says so.
  pub joined-offsets :
      joined inp pos 0 ≡ (first (offsets (a.from + t.len) behind) == a.from + t.len)
  unfolding joined Input.token_start_at Input.token_len
  joined-offsets =
      let zero_on : pos + 0 ≡ pos = omega arith in
      let here : or_zero (get_elem? inp.start_offsets (pos + 0)) ≡ a.from =
        or_zero-drop inp.start_offsets (pos + 0)
        ∙ ap (λ k. first (drop k inp.start_offsets)) zero_on
        ∙ ap first offsets-cons in
      let len : len_or_zero (get_elem? inp.tokens (pos + 0)) ≡ t.len =
        len_or_zero-drop inp.tokens (pos + 0)
        ∙ ap (λ k. first_len (drop k inp.tokens)) zero_on
        ∙ ap first_len solids-cons in
      let next : or_zero (get_elem? inp.start_offsets (pos + 0 + 1))
          ≡ first (offsets (a.from + t.len) behind) =
        or_zero-drop inp.start_offsets (pos + 0 + 1)
        ∙ ap (λ k. first (drop (k + 1) inp.start_offsets)) zero_on
        ∙ ap first (sym offsets-behind) in
      rw (here, len, next) refl

  -- A token that touches the current one is the next raw token.
  pub StartsSolid-joined : joined inp pos 0 ≡ true → StartsSolid behind
  StartsSolid-joined e =
      StartsSolid-offsets (a.from + t.len) behind (omega (arith, a.positive.0)) a.positive.1
        ((==_iff _ _).0 (sym joined-offsets ∙ e))

-- After a token, the next ones that the grammar sees.
pub Aligned-next :
    (inp : ParserInput) (t : Token) (behind : List Token) (pos : ℕ)
    → Aligned inp (t ∷ behind) pos
    → Aligned inp (skip_trivias behind) (pos + 1)
Aligned-next inp t behind pos a =
    Aligned-skip_trivias inp behind (pos + 1) (Aligned-Behind inp t behind pos a)

Touching-suc : (inp : ParserInput) (pos n : ℕ) → Touching inp pos (suc n) → Touching inp (pos + 1) n
unfolding joined
Touching-suc inp pos n h i below =
    subst
      (λ m.
        (Input.token_start_at inp (m + 1) == Input.token_start_at inp m + Input.token_len inp m)
        ≡ true)
      {x = pos + (i + 1)} {y = pos + 1 + i} (omega arith) (h (i + 1) (omega arith))

-- Tokens taken together are raw tokens that follow one another.
pub Aligned-compound :
    (inp : ParserInput) (n : ℕ) (t : Token) (behind : List Token) (pos : ℕ)
    → Aligned inp (t ∷ behind) pos
    → Touching inp pos (suc n)
    → (n ≤ length behind) × Aligned inp (skip_trivias (drop n behind)) (pos + suc n)
Aligned-compound inp zero t behind pos a h = (omega arith, Aligned-next inp t behind pos a)
Aligned-compound inp (suc n) t behind pos a h =
    let s = StartsSolid-joined inp t behind pos a (h 0 (omega arith)) in
    let clean = StartsSolid-clean behind s in
    let next : Aligned inp (s.head ∷ s.tail) (pos + 1) =
      subst (λ r. Aligned inp r (pos + 1)) (clean ∙ s.splits) (Aligned-next inp t behind pos a) in
    let rest =
      Aligned-compound inp n s.head s.tail (pos + 1) next (Touching-suc inp pos (suc n) h) in
    rw s.splits (
      omega (arith, rest.0),
      subst (Aligned inp (skip_trivias (drop n s.tail))) {x = pos + 1 + suc n}
          {y = pos + suc (suc n)} (omega arith) rest.1,
    )
