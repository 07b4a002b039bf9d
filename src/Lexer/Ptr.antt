-- ===== src/Lexer/Ptr.antt =====
-- crates/ra_syntax/src/lexer/ptr.rs: a view into the characters of a text. The Rust struct holds the
-- text and a byte length that always stands on a character boundary; here the text is split at that
-- boundary into the characters `seen` and the `rest`. A character is its code point.
pub mod Within
use rust_analyzer.Base.{
  ℕ, ◌+◌, ◌-◌, Bool, true, false, ◌&&◌, List, [], ◌∷◌, ◌++◌, Option, none, some, ltb, ◌==◌,
  if◌then◌else◌, length, get_elem?,
}
use rust_analyzer.Base.Str.{str_len, starts_with}
use rust_analyzer.Base.Loop.{Flow, again, stop, loop}

pub record Ptr : Type 0 where
  pub seen : List ℕ
  pub rest : List ℕ

-- Ptr::new
abbrev pub new : List ℕ → Ptr
new text = record { seen = []; rest = text }

-- Ptr::into_len
unfoldable pub into_len : Ptr → ℕ
into_len ptr = str_len ptr.seen

-- Ptr::nth
abbrev pub nth : Ptr → ℕ → Option ℕ
nth ptr n = get_elem? ptr.rest n

-- Ptr::current
abbrev pub current : Ptr → Option ℕ
current ptr = get_elem? ptr.rest 0

abbrev pub holds_of : (ℕ → Bool) → Option ℕ → Bool
holds_of p none = false
holds_of p (some c) = p c

-- Ptr::at
abbrev pub at : Ptr → ℕ → Bool
at ptr c = holds_of (λ d. d == c) (current ptr)

-- Ptr::at_str
abbrev pub at_str : Ptr → List ℕ → Bool
at_str ptr s = starts_with ptr.rest s

-- Ptr::at_p
abbrev pub at_p : Ptr → (ℕ → Bool) → Bool
at_p ptr p = holds_of p (current ptr)

-- Ptr::nth_is_p
abbrev pub nth_is_p : Ptr → ℕ → (ℕ → Bool) → Bool
nth_is_p ptr n p = holds_of p (nth ptr n)

abbrev bump_rest : List ℕ → List ℕ → Ptr
bump_rest seen [] = record { seen = seen; rest = [] }
bump_rest seen (c ∷ rest) = record { seen = seen ++ c ∷ []; rest = rest }

-- Ptr::bump. Its Rust result is `current` before the call.
unfoldable pub bump : Ptr → Ptr
bump ptr = bump_rest ptr.seen ptr.rest

-- The number of characters left bounds every loop of the lexer.
abbrev pub left : Ptr → ℕ
left ptr = length ptr.rest

-- `while let Some(c) = scrutinee { body }`, then `after`.
abbrev pub while_some : {S A : Type 0} → Option ℕ → A → (ℕ → Flow S A) → Flow S A
while_some none after body = stop after
while_some (some c) after body = body c

unfoldable pub bump_while_round : (ℕ → Bool) → Ptr → Flow Ptr Ptr
bump_while_round pred ptr =
    while_some (current ptr) ptr (λ c. if pred c then again (bump ptr) else stop ptr)

-- Ptr::bump_while
unfoldable pub bump_while : (ℕ → Bool) → Ptr → Ptr
unfolding bump_while_round
bump_while pred = loop left (bump_while_round pred) (λ ptr. ptr)

-- Ptr::current_token_text
abbrev pub current_token_text : Ptr → List ℕ
current_token_text ptr = ptr.seen
