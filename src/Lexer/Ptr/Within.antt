-- ===== src/Lexer/Ptr/Within.antt =====
-- A pointer only moves forward over its text (crates/ra_syntax/src/lexer/ptr.rs). The rules go by the
-- shape of the scanning code, so that `search` proves each scanner.
use rust_analyzer.Base.{
  ℕ, ◌≤◌, ◌<◌, ◌≡◌, refl, ◌∙◌, Bool, true, false, ◌&&◌, List, [], ◌∷◌, ◌++◌, Option, none, some,
  append_assoc, arith, if◌then◌else◌, length,
}
use rust_analyzer.Base.Loop.{Flow, again, stop, RoundKeeps, RoundFalls, loop, loop-keeps}
use rust_analyzer.Lexer.Ptr.{Ptr, at, at_str, current, bump, left, while_some, bump_while}

-- The pointer is in `text`, with at most `n` characters left.
pub data Within (text : List ℕ) (n : ℕ) (ptr : Ptr) : Type 0 where
  within : ptr.seen ++ ptr.rest ≡ text → left ptr ≤ n → Within text n ptr

module _ {text : List ℕ} {n : ℕ} {ptr : Ptr} where
  pub Within-splits : Within text n ptr → ptr.seen ++ ptr.rest ≡ text
  Within-splits (within e h) = e

  pub Within-bounded : Within text n ptr → left ptr ≤ n
  Within-bounded (within e h) = h

pub Within-here : (ptr : Ptr) → Within (ptr.seen ++ ptr.rest) (left ptr) ptr
Within-here ptr = within refl (omega arith)

pub Within-bump : {text : List ℕ} {n : ℕ} (ptr : Ptr) → Within text n ptr → Within text n (bump ptr)
unfolding bump
Within-bump {text} {n} ptr (within e h) = go ptr.seen ptr.rest e h
  where
    go :
        (seen rest : List ℕ)
        → seen ++ rest ≡ text
        → length rest ≤ n
        → Within text n (bump (record { seen = seen; rest = rest }))
    go seen [] e h = within e h
    go seen (c ∷ rest) e h = within (append_assoc seen (c ∷ []) rest ∙ e) (omega arith)

pub Within-if :
    {text : List ℕ} {n : ℕ} (b : Bool) (p q : Ptr)
    → (b ≡ true → Within text n p)
    → (b ≡ false → Within text n q)
    → Within text n (if b then p else q)
Within-if true p q wp wq = wp refl
Within-if false p q wp wq = wq refl

-- The same where the pointer comes back beside a result.
pub Within-if_result :
    {A : Type 0} {text : List ℕ} {n : ℕ} (b : Bool) (x y : A × Ptr)
    → (b ≡ true → Within text n x.1)
    → (b ≡ false → Within text n y.1)
    → Within text n (if b then x else y).1
Within-if_result true x y wx wy = wx refl
Within-if_result false x y wx wy = wy refl

-- Fewer than `m` characters are left.
pub data LeftBelow (m : ℕ) (ptr : Ptr) : Type 0 where
  below : left ptr < m → LeftBelow m ptr

pub LeftBelow-lt : {m : ℕ} {ptr : Ptr} → LeftBelow m ptr → left ptr < m
LeftBelow-lt (below h) = h

-- Where a character is left, a bump leaves fewer.
pub LeftBelow-bump : (ptr : Ptr) (c : ℕ) → current ptr ≡ some c → LeftBelow (left ptr) (bump ptr)
unfolding bump
LeftBelow-bump ptr c h = below (ground arith)

pub LeftBelow-bump_again : {m : ℕ} (ptr : Ptr) → LeftBelow m ptr → LeftBelow m (bump ptr)
unfolding bump
LeftBelow-bump_again ptr (below h) = below (ground arith)

-- So does a bump at a text that starts with a known character.
pub LeftBelow-bump-at_str :
    (ptr : Ptr) (c : ℕ) (s : List ℕ) → at_str ptr (c ∷ s) ≡ true → LeftBelow (left ptr) (bump ptr)
unfolding bump
LeftBelow-bump-at_str ptr c s h = below (ground arith)

pub LeftBelow-bump_at : (ptr : Ptr) (c : ℕ) → at ptr c ≡ true → LeftBelow (left ptr) (bump ptr)
unfolding bump
LeftBelow-bump_at ptr c h = below (ground arith)

pub LeftBelow-bump_at_and :
    (ptr : Ptr) (c : ℕ) (b : Bool) → (at ptr c && b) ≡ true → LeftBelow (left ptr) (bump ptr)
unfolding bump
LeftBelow-bump_at_and ptr c b h = below (ground arith)

-- What stays within the text after fewer characters were left has fewer left.
pub LeftBelow-Within :
    {text : List ℕ} {m : ℕ} {p q : Ptr} → Within text (left p) q → LeftBelow m p → LeftBelow m q
LeftBelow-Within (within e h) (below k) = below (omega arith)

pub LeftBelow-if :
    {m : ℕ} (b : Bool) (p q : Ptr)
    → LeftBelow m p
    → LeftBelow m q
    → LeftBelow m (if b then p else q)
LeftBelow-if true p q hp hq = hp
LeftBelow-if false p q hp hq = hq

-- A round that stays in the text, and goes on only with fewer than `m` characters left.
pub data RoundOk {S A : Type 0} (pos : S → Ptr) (end : A → Ptr) (text : List ℕ) (n m : ℕ)
    : Flow S A → Type 0 where
  goes : {t : S} → Within text n (pos t) → LeftBelow m (pos t) → RoundOk pos end text n m (again t)
  stops : {a : A} → Within text n (end a) → RoundOk pos end text n m (stop a)

module _ {S A : Type 0} {pos : S → Ptr} {end : A → Ptr} {text : List ℕ} {n m : ℕ} where
  pub RoundOk-if :
      (b : Bool) (x y : Flow S A)
      → (b ≡ true → RoundOk pos end text n m x)
      → (b ≡ false → RoundOk pos end text n m y)
      → RoundOk pos end text n m (if b then x else y)
  RoundOk-if true x y hx hy = hx refl
  RoundOk-if false x y hx hy = hy refl

  pub RoundOk-while_some :
      (o : Option ℕ) (a : A) (f : ℕ → Flow S A)
      → Within text n (end a)
      → ((c : ℕ) → o ≡ some c → RoundOk pos end text n m (f c))
      → RoundOk pos end text n m (while_some o a f)
  RoundOk-while_some none a f ha hf = stops ha
  RoundOk-while_some (some c) a f ha hf = hf c refl

  RoundKeeps-RoundOk :
      (f : Flow S A)
      → RoundOk pos end text n m f
      → RoundKeeps (λ s. Within text n (pos s)) (λ a. Within text n (end a)) f
  RoundKeeps-RoundOk _ (goes w h) = w
  RoundKeeps-RoundOk _ (stops w) = w

  RoundFalls-RoundOk :
      (f : Flow S A) → RoundOk pos end text n m f → RoundFalls (λ s. left (pos s)) m f
  RoundFalls-RoundOk _ (goes w h) = LeftBelow-lt h
  RoundFalls-RoundOk _ (stops w) = tt

-- A loop over such rounds ends within its text.
pub Within-loop :
    {S A : Type 0} {pos : S → Ptr} {end : A → Ptr} {text : List ℕ} {n : ℕ} (body : S → Flow S A)
    (spent : S → A)
    → ((s : S) (text : List ℕ) (n : ℕ)
        → Within text n (pos s)
        → RoundOk pos end text n (left (pos s)) (body s))
    → (s : S) → Within text n (pos s)
    → Within text n (end (loop (λ s. left (pos s)) body spent s))
Within-loop {pos = pos} {end = end} {text = text} {n = n} body spent ok =
    loop-keeps (λ s. left (pos s)) body spent
      (λ s.
        RoundFalls-RoundOk (body s)
          (ok s ((pos s).seen ++ (pos s).rest) (left (pos s)) (within refl (omega arith))))
      (λ s. Within text n (pos s)) (λ a. Within text n (end a))
      (λ s w. RoundKeeps-RoundOk (body s) (ok s text n w))

pub ruleset scan_rules = (
  Within-bump, Within-if, Within-if_result, LeftBelow-bump, LeftBelow-bump-at_str,
  LeftBelow-bump_at, LeftBelow-bump_at_and, LeftBelow-bump_again, LeftBelow-if, goes, stops,
  RoundOk-if, RoundOk-while_some,
)

pub Within-bump_while :
    {text : List ℕ} {n : ℕ} (pred : ℕ → Bool) (ptr : Ptr)
    → Within text n ptr
    → Within text n (bump_while pred ptr)
unfolding bump_while
Within-bump_while pred =
    Within-loop {pos = λ p. p} {end = λ p. p} _ _ (λ s text n w. search scan_rules)
