-- ===== src/SyntaxKind/Reserved.antt =====
-- `from_keyword`, `is_keyword` and the names of `info`, three tables of
-- crates/ra_syntax/src/syntax_kinds/generated.rs, against one another.
use Prim.Native.String.{String}
use Prim.Native.Char.{code}
use rust_analyzer.Base.{
  ℕ, ◌+◌, ◌-◌, ◌≡◌, Bool, true, false, ◌&&◌, ◌||◌, List, [], ◌∷◌, some, ◌==◌, ◌↔◌, length, take,
  map, if◌then◌else◌, leb, arith, Bool-cases, inl, inr, ◌⊎◌, ==_iff, subst, ◌∙◌, ap,
}
use rust_analyzer.SyntaxKind.Base.{SyntaxKind}
use rust_analyzer.SyntaxKind.Keywords.{auto_kw, default_kw, union_kw}
use rust_analyzer.SyntaxKind.Info.{info_name}
use rust_analyzer.SyntaxKind.Text.{keyword_arms, from_keyword}
use rust_analyzer.SyntaxKind.IsKeyword.{
  HasArm, keywords, matches, is_keyword, from_keyword-is_keyword,
}

unfoldable pub codes : String → List ℕ
codes String.[] = []
codes (String.◌∷◌ c s) = code c ∷ codes s

unfoldable pub to_lower : ℕ → ℕ
to_lower c = if leb 65 c && leb c 90 then c + 32 else c

-- The name of a kind in `info` without its last three letters, `_KW`, in lower case.
unfoldable pub keyword_text : SyntaxKind → List ℕ
keyword_text kind = let name = codes (info_name kind) in map to_lower (take (length name - 3) name)

-- The keywords other than those that are identifiers elsewhere.
unfoldable pub is_reserved : SyntaxKind → Bool
is_reserved kind =
    is_keyword kind
    && (if kind == auto_kw || kind == default_kw || kind == union_kw then false else true)

AllNamed : List (List ℕ × SyntaxKind) → Type 0
AllNamed [] = Unit {0}
AllNamed ((text, kind) ∷ arms) =
    (is_reserved kind ≡ true) × (text ≡ keyword_text kind) × AllNamed arms

keyword_arms-AllNamed : AllNamed keyword_arms
unfolding AllNamed is_reserved is_keyword matches keyword_text codes to_lower info_name
keyword_arms-AllNamed = search depth 120

named-HasArm :
    (ident : List ℕ) (kind : SyntaxKind) (arms : List (List ℕ × SyntaxKind))
    → AllNamed arms
    → HasArm ident kind arms
    → (is_reserved kind ≡ true) × (ident ≡ keyword_text kind)
unfolding AllNamed
named-HasArm ident kind [] all h = absurd h
named-HasArm ident kind ((text, k) ∷ arms) all (inl h) = rw (h.0, h.1) ((all.0, all.1))
named-HasArm ident kind ((text, k) ∷ arms) all (inr h) = named-HasArm ident kind arms all.2 h

-- A keyword is found by its name, unless it is not reserved.
IsFound : SyntaxKind → Type 0
IsFound kind = (is_reserved kind ≡ false) ⊎ (from_keyword (keyword_text kind) ≡ some kind)

AllFound : List SyntaxKind → Type 0
AllFound [] = Unit {0}
AllFound (kind ∷ kinds) = IsFound kind × AllFound kinds

keywords-AllFound : AllFound keywords
unfolding AllFound IsFound is_reserved is_keyword matches keyword_text codes to_lower info_name
    from_keyword
keywords-AllFound = search (inl, inr) depth 160

IsFound-matches :
    (kinds : List SyntaxKind) (kind : SyntaxKind)
    → AllFound kinds
    → matches kinds kind ≡ true
    → IsFound kind
unfolding AllFound matches
IsFound-matches [] kind all h = cc h
IsFound-matches (k ∷ kinds) kind all h = elim (Bool-cases (k == kind)) [
  | inl e ↦ subst IsFound ((==_iff k kind).0 e) all.0
  | inr e ↦ IsFound-matches kinds kind all.1 (ground (arith, e, h))
]

keyword_if_reserved : (kind : SyntaxKind) → is_reserved kind ≡ true → is_keyword kind ≡ true
unfolding is_reserved
keyword_if_reserved kind h = elim (Bool-cases (is_keyword kind)) [
  | inl e ↦ e
  | inr e ↦ absurd (ground (arith, e, h))
]

from_keyword-keyword_text :
    (kind : SyntaxKind) → is_reserved kind ≡ true → from_keyword (keyword_text kind) ≡ some kind
unfolding IsFound is_keyword
from_keyword-keyword_text kind h =
    elim (IsFound-matches keywords kind keywords-AllFound (keyword_if_reserved kind h)) [
      | inl e ↦ absurd (cc (e, h))
      | inr e ↦ e
    ]

-- `from_keyword` gives a kind for a text exactly if `is_keyword` holds of the kind, it is not `auto`,
-- `default` or `union`, and the text is its name in `info`, without `_KW` and in lower case.
pub from_keyword-keyword_text_iff :
    (ident : List ℕ) (kind : SyntaxKind)
    → (from_keyword ident ≡ some kind) ↔ ((is_reserved kind ≡ true) × (ident ≡ keyword_text kind))
from_keyword-keyword_text_iff ident kind = (
  λ e.
      named-HasArm ident kind keyword_arms keyword_arms-AllNamed
        (from_keyword-is_keyword ident kind e).0,
  λ h. ap from_keyword h.1 ∙ from_keyword-keyword_text kind h.0,
)
