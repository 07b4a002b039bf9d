-- ===== src/Parser/Steps/Links.antt =====
-- Forward parents stay linked: what pushing, completing, preceding and abandoning do to the events
-- (crates/ra_syntax/src/parser_impl.rs).
use rust_analyzer.Base.{
  ℕ, zero, suc, ◌+◌, ◌<◌, ◌≡◌, ◌≢◌, ◌∙◌, sym, subst, List, [], ◌∷◌, ◌++◌, Option, none, some, arith,
  length, get_elem?, set, length-append, get_elem?-set_self, get_elem?-set_ne, lt_of_get_elem?,
  get_elem?-append_left, inl, inr, ◌⊎◌,
}
use native.Mathlib.Decide.{ℕ_discrete}
use rust_analyzer.SyntaxKind.{SyntaxKind}
use rust_analyzer.Parser.Event.{Event, start}
use rust_analyzer.Parser.Process.Links.{StartsNode, LinksTo, IsLinked}

-- An event that has no forward parent.
abbrev pub IsTop : Event → Type 0
IsTop event =
    (kind : SyntaxKind) (forward_parent : Option ℕ)
    → event ≡ start kind forward_parent
    → forward_parent ≡ none

StartsNode-append :
    (es fs : List Event) (j : ℕ) → StartsNode (get_elem? es j) → StartsNode (get_elem? (es ++ fs) j)
StartsNode-append es fs j s =
    subst StartsNode (sym (get_elem?-append_left es fs j (lt_of_get_elem? es j _ s.is_start))) s

pub LinksTo-append :
    (es fs : List Event) (i : ℕ) (forward_parent : Option ℕ)
    → LinksTo es i forward_parent
    → LinksTo (es ++ fs) i forward_parent
LinksTo-append es fs i none h = tt
LinksTo-append es fs i (some d) h = (h.0, StartsNode-append es fs (i + d) h.1)

-- Where an event of a list with one more at the end stands.
last_or_before :
    (es : List Event) (e f : Event) (i : ℕ)
    → get_elem? (es ++ e ∷ []) i ≡ some f
    → (get_elem? es i ≡ some f) ⊎ (e ≡ f)
last_or_before [] e f zero h = inr cc
last_or_before [] e f (suc i) h = cc
last_or_before (x ∷ es) e f zero h = inl h
last_or_before (x ∷ es) e f (suc i) h = last_or_before es e f i h

pub IsLinked-push : (es : List Event) (e : Event) → IsTop e → IsLinked es → IsLinked (es ++ e ∷ [])
IsLinked-push es e top l = record {
  links = λ i kind forward_parent h. elim (last_or_before es e (start kind forward_parent) i h) [
    | inl before ↦
        LinksTo-append es (e ∷ []) i forward_parent (l.links i kind forward_parent before)
    | inr last ↦ subst (LinksTo (es ++ e ∷ []) i) (sym (top kind forward_parent last)) tt
  ];
}

-- Starts that change in place.
module _ (es : List Event) (pos : ℕ) (kind : SyntaxKind) (forward_parent : Option ℕ)
    (below : pos < length es) where
  StartsNode-put :
      (j : ℕ)
      → StartsNode (get_elem? es j)
      → StartsNode (get_elem? (set es pos (start kind forward_parent)) j)
  StartsNode-put j s = elim (ℕ_discrete pos j) [
    | yes e ↦ record {
      kind = kind;
      forward_parent = forward_parent;
      is_start =
          subst
            (λ k.
              get_elem? (set es pos (start kind forward_parent)) k
              ≡ some (start kind forward_parent))
            e (get_elem?-set_self es pos (start kind forward_parent) below);
    }
    | no ne ↦ record {
      kind = s.kind;
      forward_parent = s.forward_parent;
      is_start = get_elem?-set_ne es pos j (start kind forward_parent) ne ∙ s.is_start;
    }
  ]

  LinksTo-put :
      (i : ℕ) (link : Option ℕ)
      → LinksTo es i link
      → LinksTo (set es pos (start kind forward_parent)) i link
  LinksTo-put i none h = tt
  LinksTo-put i (some d) h = (h.0, StartsNode-put (i + d) h.1)

  pub IsLinked-put :
      LinksTo es pos forward_parent
      → IsLinked es
      → IsLinked (set es pos (start kind forward_parent))
  IsLinked-put to l = record { links = go }
    where
      go :
          (i : ℕ) (k : SyntaxKind) (link : Option ℕ)
          → get_elem? (set es pos (start kind forward_parent)) i ≡ some (start k link)
          → LinksTo (set es pos (start kind forward_parent)) i link
      go i k link h = elim (ℕ_discrete pos i) [
        | yes e ↦
            let same : start kind forward_parent ≡ start k link =
              cc (h, get_elem?-set_self es pos (start kind forward_parent) below, e) in
            let fp : forward_parent ≡ link = cc same in
            let to' : LinksTo es i link =
              subst (λ j. LinksTo es j link) e (subst (LinksTo es pos) fp to) in
            LinksTo-put i link to'
        | no ne ↦
            LinksTo-put i link (
              l.links i k link (sym (get_elem?-set_ne es pos i (start kind forward_parent) ne) ∙ h))
      ]

-- Dropping a last event that is nobody's forward parent.
pub IsLinked-init :
    (es : List Event) (e : Event)
    → ((i : ℕ) (kind : SyntaxKind) (d : ℕ)
        → get_elem? (es ++ e ∷ []) i ≡ some (start kind (some d))
        → i + d ≢ length es)
    → IsLinked (es ++ e ∷ [])
    → IsLinked es
IsLinked-init es e alone l = record { links = go }
  where
    go :
        (i : ℕ) (kind : SyntaxKind) (link : Option ℕ)
        → get_elem? es i ≡ some (start kind link)
        → LinksTo es i link
    go i kind none h = tt
    go i kind (some d) h =
        let wide : get_elem? (es ++ e ∷ []) i ≡ some (start kind (some d)) =
          get_elem?-append_left es (e ∷ []) i (lt_of_get_elem? es i _ h) ∙ h in
        let to = l.links i kind (some d) wide in
        let inside : i + d < length es = grind (
          arith,
          lt_of_get_elem? (es ++ e ∷ []) (i + d) _ to.1.is_start,
          length-append es (e ∷ []),
          alone i kind d wide,
        ) in
        (to.0, subst StartsNode (get_elem?-append_left es (e ∷ []) (i + d) inside) to.1)
