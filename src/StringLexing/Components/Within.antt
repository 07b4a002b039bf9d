-- ===== src/StringLexing/Components/Within.antt =====
-- Each component of a literal (crates/ra_syntax/src/string_lexing/parser.rs) is the piece of the text
-- that its parsing passes over.
use rust_analyzer.Base.{
  ℕ, ◌<◌, ◌≡◌, refl, Bool, true, false, List, ◌++◌, Option, none, some, ◌==◌, if◌then◌else◌, arith,
  subst,
}
use rust_analyzer.Lexer.Classes.{is_whitespace}
use rust_analyzer.Lexer.Ptr.{Ptr, current, bump, bump_while, left, into_len}
use rust_analyzer.Lexer.Ptr.Within.{
  Within, Within-here, Within-bump, Within-bump_while, Within-loop, Within-bounded, Within-splits,
  LeftBelow-lt, LeftBelow-bump, scan_rules,
}
use rust_analyzer.StringLexing.Components.{
  StringComponent, StringComponentKind, ending_here, advance_past_brace, parse_unicode_escape,
  advance_code, parse_ascii_code_escape, parse_escape_at, parse_escape, parse_ignore_newline,
  or_escape, component_from, component_at, parse_component,
}

-- The component goes from `start` to where the parser is then, and at most `n` characters are left of
-- the text.
pub data EndsHere (text : List ℕ) (n start : ℕ) : StringComponent × Ptr → Type 0 where
  ends_here :
      (kind : StringComponentKind) (ptr : Ptr)
      → Within text n ptr
      → EndsHere text n start (ending_here start kind ptr)

module _ {text : List ℕ} {n : ℕ} where
  Within-advance_past_brace :
      (ptr : Ptr) → Within text n ptr → Within text n (advance_past_brace ptr)
  unfolding advance_past_brace
  Within-advance_past_brace =
      Within-loop {pos = λ p. p} {end = λ p. p} _ _ (λ s text n w. search scan_rules)

  Within-advance_code :
      (code_start : ℕ) (ptr : Ptr) → Within text n ptr → Within text n (advance_code code_start ptr)
  unfolding advance_code
  Within-advance_code code_start =
      Within-loop {pos = λ p. p} {end = λ p. p} _ _ (λ s text n w. search scan_rules)

module _ {text : List ℕ} {n start : ℕ} where
  EndsHere-if :
      (b : Bool) (x y : StringComponent × Ptr)
      → EndsHere text n start x
      → EndsHere text n start y
      → EndsHere text n start (if b then x else y)
  EndsHere-if true x y hx hy = hx
  EndsHere-if false x y hx hy = hy

  EndsHere-parse_escape :
      (ptr : Ptr) → Within text n ptr → EndsHere text n start (parse_escape start ptr)
  unfolding parse_escape parse_escape_at parse_unicode_escape parse_ascii_code_escape
  EndsHere-parse_escape ptr w = at (current ptr)
    where
      at : (o : Option ℕ) → EndsHere text n start (parse_escape_at o start ptr)
      at none = ends_here StringComponentKind.ascii_escape ptr w
      at (some c) =
          search
            (scan_rules, EndsHere-if, ends_here, Within-advance_past_brace, Within-advance_code)

  EndsHere-or_escape :
      (b : Bool) (ptr : Ptr)
      → Within text n ptr
      → EndsHere text n start (
          or_escape start ptr (
            if b
            then some (
                ending_here start StringComponentKind.ignore_newline (bump_while is_whitespace ptr))
            else none))
  EndsHere-or_escape true ptr w =
      ends_here StringComponentKind.ignore_newline _ (Within-bump_while is_whitespace ptr w)
  EndsHere-or_escape false ptr w = EndsHere-parse_escape ptr w

EndsHere-component_from :
    (quote next : ℕ) (ptr : Ptr) {text : List ℕ} {n : ℕ}
    → Within text n (bump ptr)
    → EndsHere text n (into_len ptr) (component_from quote next ptr)
unfolding component_from parse_ignore_newline
EndsHere-component_from quote next ptr w =
    search (EndsHere-if, EndsHere-or_escape, EndsHere-parse_escape, ends_here)

EndsHere-fields :
    {text : List ℕ} {n start : ℕ} {r : StringComponent × Ptr}
    → EndsHere text n start r
    → (r.0.from ≡ start) × (r.0.to ≡ into_len r.1) × Within text n r.1
EndsHere-fields (ends_here kind ptr w) = (refl, refl, w)

-- What `parse_component` makes of the text: the component is the piece that it passes over.
abbrev pub PassesOver : Ptr → StringComponent → Ptr → Type 0
PassesOver ptr c after =
    (c.from ≡ into_len ptr)
    × (c.to ≡ into_len after)
    × (after.seen ++ after.rest ≡ ptr.seen ++ ptr.rest)
    × (left after < left ptr)

component_if-PassesOver :
    (quote next : ℕ) (ptr after : Ptr) (c : StringComponent) (closes : Bool)
    → current ptr ≡ some next
    → ◌≡◌ {A = Option (StringComponent × Ptr)}
        (if closes then none else some (component_from quote next ptr))
        (some (c, after))
    → PassesOver ptr c after
component_if-PassesOver quote next ptr after c true here e = cc e
component_if-PassesOver quote next ptr after c false here e =
    let moved : Within (ptr.seen ++ ptr.rest) (left (bump ptr)) (bump ptr) =
      Within.within (Within-splits (Within-bump ptr (Within-here ptr))) (omega arith) in
    let ends = EndsHere-fields (EndsHere-component_from quote next ptr moved) in
    let same : component_from quote next ptr ≡ (c, after) = cc e in
    let fields =
      subst
        (λ (r : StringComponent × Ptr).
          (r.0.from ≡ into_len ptr)
          × (r.0.to ≡ into_len r.1)
          × Within (ptr.seen ++ ptr.rest) (left (bump ptr)) r.1)
        same ends in
    (
      fields.0,
      fields.1,
      Within-splits fields.2,
      omega (arith, Within-bounded fields.2, LeftBelow-lt (LeftBelow-bump ptr next here)),
    )

component_at-PassesOver :
    (quote : ℕ) (ptr after : Ptr) (c : StringComponent) (o : Option ℕ)
    → current ptr ≡ o
    → component_at quote o ptr ≡ some (c, after)
    → PassesOver ptr c after
component_at-PassesOver quote ptr after c none here e = cc e
component_at-PassesOver quote ptr after c (some next) here e =
    component_if-PassesOver quote next ptr after c (next == quote) here e

-- A component that `parse_component` gives goes from the position before to the position after it,
-- the text stays the same, and fewer characters of it are left.
pub parse_component-PassesOver :
    (quote : ℕ) (ptr after : Ptr) (c : StringComponent)
    → parse_component quote ptr ≡ some (c, after)
    → PassesOver ptr c after
unfolding parse_component
parse_component-PassesOver quote ptr after c e =
    component_at-PassesOver quote ptr after c (current ptr) refl e
