-- ===== src/SyntaxKind/IsKeyword.antt =====
-- `is_keyword` of crates/ra_syntax/src/syntax_kinds/generated.rs, and what `from_keyword` gives.
use rust_analyzer.Base.{
  ℕ, ◌≡◌, Bool, true, false, ◌||◌, List, [], ◌∷◌, Option, some, ◌==◌, if◌then◌else◌, arith,
  Bool-cases, inl, inr, ◌⊎◌, ==_iff, subst, sym, refl,
}
use rust_analyzer.SyntaxKind.Base.{SyntaxKind}
use rust_analyzer.SyntaxKind.Keywords.{
  use_kw, fn_kw, struct_kw, enum_kw, trait_kw, impl_kw, dyn_kw, true_kw, false_kw, as_kw, extern_kw,
  crate_kw, mod_kw, pub_kw, self_kw, super_kw, in_kw, where_kw, for_kw, loop_kw, while_kw,
  continue_kw, break_kw, if_kw, else_kw, match_kw, const_kw, static_kw, mut_kw, unsafe_kw, type_kw,
  ref_kw, let_kw, move_kw, return_kw, auto_kw, default_kw, union_kw,
}
use rust_analyzer.SyntaxKind.Text.{text_eq, find_arm, keyword_arms, from_keyword}

-- The alternatives of the first arm of `is_keyword`.
abbrev pub keywords : List SyntaxKind
keywords =
    use_kw ∷ fn_kw ∷ struct_kw ∷ enum_kw ∷ trait_kw ∷ impl_kw ∷ dyn_kw ∷ true_kw ∷ false_kw ∷ as_kw
    ∷ extern_kw ∷ crate_kw ∷ mod_kw ∷ pub_kw ∷ self_kw ∷ super_kw ∷ in_kw ∷ where_kw ∷ for_kw
    ∷ loop_kw ∷ while_kw ∷ continue_kw ∷ break_kw ∷ if_kw ∷ else_kw ∷ match_kw ∷ const_kw
    ∷ static_kw ∷ mut_kw ∷ unsafe_kw ∷ type_kw ∷ ref_kw ∷ let_kw ∷ move_kw ∷ return_kw ∷ auto_kw
    ∷ default_kw ∷ union_kw ∷ []

unfoldable pub matches : List SyntaxKind → SyntaxKind → Bool
matches [] kind = false
matches (k ∷ ks) kind = k == kind || matches ks kind

-- SyntaxKind::is_keyword
unfoldable pub is_keyword : SyntaxKind → Bool
unfolding matches
is_keyword kind = matches keywords kind

-- Every arm gives a keyword.
AllKeywords : List (List ℕ × SyntaxKind) → Type 0
AllKeywords [] = Unit {0}
AllKeywords ((text, kind) ∷ arms) = (is_keyword kind ≡ true) × AllKeywords arms

-- The kind comes from an arm whose text is the identifier.
abbrev pub HasArm : List ℕ → SyntaxKind → List (List ℕ × SyntaxKind) → Type 0
HasArm ident kind [] = ⊥
HasArm ident kind ((text, k) ∷ arms) = ((ident ≡ text) × (kind ≡ k)) ⊎ HasArm ident kind arms

eq_of_text_eq : (s t : List ℕ) → text_eq s t ≡ true → s ≡ t
unfolding text_eq
eq_of_text_eq [] [] h = refl
eq_of_text_eq [] (b ∷ t) h = cc
eq_of_text_eq (a ∷ s) [] h = cc
eq_of_text_eq (a ∷ s) (b ∷ t) h = elim (Bool-cases (a == b)) [
  | inl e ↦ rw ((==_iff a b).0 e, eq_of_text_eq s t (ground arith))
  | inr e ↦ absurd ground arith
]

arm_cases :
    (b : Bool) (k kind : SyntaxKind) (rest : Option SyntaxKind)
    → (if b then some k else rest) ≡ some kind
    → ((b ≡ true) × (kind ≡ k)) ⊎ (rest ≡ some kind)
arm_cases true k kind rest e = inl (refl, cc)
arm_cases false k kind rest e = inr e

HasArm-find_arm :
    (ident : List ℕ) (arms : List (List ℕ × SyntaxKind)) (kind : SyntaxKind)
    → find_arm ident arms ≡ some kind
    → HasArm ident kind arms
unfolding find_arm
HasArm-find_arm ident [] kind e = cc
HasArm-find_arm ident ((text, k) ∷ arms) kind e =
    elim (arm_cases (text_eq ident text) k kind (find_arm ident arms) e) [
      | inl h ↦ inl (eq_of_text_eq ident text h.0, h.1)
      | inr h ↦ inr (HasArm-find_arm ident arms kind h)
    ]

is_keyword-HasArm :
    (ident : List ℕ) (kind : SyntaxKind) (arms : List (List ℕ × SyntaxKind))
    → AllKeywords arms
    → HasArm ident kind arms
    → is_keyword kind ≡ true
unfolding AllKeywords
is_keyword-HasArm ident kind [] all h = absurd h
is_keyword-HasArm ident kind ((text, k) ∷ arms) all (inl h) =
    subst (λ k. is_keyword k ≡ true) (sym h.1) all.0
is_keyword-HasArm ident kind ((text, k) ∷ arms) all (inr h) =
    is_keyword-HasArm ident kind arms all.1 h

keyword_arms-AllKeywords : AllKeywords keyword_arms
unfolding is_keyword AllKeywords
keyword_arms-AllKeywords = search depth 80

-- If `from_keyword` gives a kind, the text is that of one of its arms, the kind is the one of that
-- arm, and `is_keyword` holds of it.
pub from_keyword-is_keyword :
    (ident : List ℕ) (kind : SyntaxKind)
    → from_keyword ident ≡ some kind
    → HasArm ident kind keyword_arms × (is_keyword kind ≡ true)
unfolding from_keyword
from_keyword-is_keyword ident kind e =
    let arm = HasArm-find_arm ident keyword_arms kind e in
    (arm, is_keyword-HasArm ident kind keyword_arms keyword_arms-AllKeywords arm)
