-- ===== src/Grammar/Keeps/Facts.antt =====
-- What a function of the grammar knows about the markers that it holds
-- (crates/ra_syntax/src/parser_api.rs).
use rust_analyzer.Base.{
  ℕ, zero, suc, ◌+◌, ◌≤◌, ◌<◌, ◌≡◌, ◌≢◌, sym, ◌∙◌, List, [], ◌∷◌, ◌++◌, Option, some, arith, length,
  get_elem?, set, take, length-append, length-set, get_elem?-set_self, get_elem?-set_ne,
  length-take, Bool-cases, inl, inr, ==_iff, ◌==◌,
}
use rust_analyzer.SyntaxKind.{SyntaxKind}
use rust_analyzer.Parser.Event.{Event, start}
use rust_analyzer.Parser.Steps.{NoChild}

-- There is an event at a position; and it is nobody's forward parent, and what was known before is
-- about earlier events.
pub data Fact : Type 0 where
  below : ℕ → Fact
  alone : ℕ → Fact

abbrev pub place : Fact → ℕ
place (below k) = k
place (alone k) = k

abbrev pub Earlier : ℕ → List Fact → Type 0
Earlier k [] = Unit {0}
Earlier k (f ∷ fs) = (place f < k) × Earlier k fs

abbrev pub Holds : List Event → Fact → List Fact → Type 0
Holds es (below k) fs = k < length es
Holds es (alone k) fs = (k < length es) × NoChild es k × Earlier k fs

abbrev pub Held : List Event → List Fact → Type 0
Held es [] = Unit {0}
Held es (f ∷ fs) = Holds es f fs × Held es fs

-- Events that came from others by operations which leave old markers alone.
pub record Frames (es fs : List Event) : Type 0 where
  pub longer : length es ≤ length fs
  pub unlinked : (k : ℕ) → k < length es → NoChild es k → NoChild fs k

module _ {es es' : List Event} (fr : Frames es es') where
  Holds-Frames : (f : Fact) (fs : List Fact) → Holds es f fs → Holds es' f fs
  Holds-Frames (below k) fs h = omega (arith, h, fr.longer)
  Holds-Frames (alone k) fs h = (omega (arith, h.0, fr.longer), fr.unlinked k h.0 h.1, h.2)

  pub Held-Frames : (fs : List Fact) → Held es fs → Held es' fs
  Held-Frames [] h = tt
  Held-Frames (f ∷ fs) h = (Holds-Frames f fs h.0, Held-Frames fs h.1)

pub Frames-same : (es : List Event) → Frames es es
Frames-same es = record { longer = omega arith; unlinked = λ k h n. n }

pub Frames-trans : (es fs gs : List Event) → Frames es fs → Frames fs gs → Frames es gs
Frames-trans es fs gs f g = record {
  longer = omega (arith, f.longer, g.longer);
  unlinked = λ k h n. g.unlinked k (omega (arith, h, f.longer)) (f.unlinked k h n);
}

-- An event that names no forward parent.
abbrev pub IsTopEvent : Event → Type 0
IsTopEvent e = (kind : SyntaxKind) (d : ℕ) → e ≢ start kind (some d)

-- What stands at `i` of a list and one event more.
pub at_push :
    (es : List Event) (e x : Event) (i : ℕ)
    → get_elem? (es ++ e ∷ []) i ≡ some x
    → x ≢ e
    → get_elem? es i ≡ some x
at_push [] e x zero h n = absurd (n (cc h))
at_push [] e x (suc i) h n = cc h
at_push (y ∷ es) e x zero h n = h
at_push (y ∷ es) e x (suc i) h n = at_push es e x i h n

pub Frames-push : (es : List Event) (e : Event) → IsTopEvent e → Frames es (es ++ e ∷ [])
Frames-push es e top = record {
  longer = omega (arith, length-append es (e ∷ []));
  unlinked = λ k h n i kind d at_i.
      n i kind d (at_push es e (start kind (some d)) i at_i (λ same. top kind d (sym same)));
}

-- A start with another kind or forward parent.
pub Frames-set :
    (es bs : List Event) (pos : ℕ) (kind : SyntaxKind) (forward_parent : Option ℕ)
    → Frames es bs
    → pos < length bs
    → ((k d : ℕ) → k < length es → NoChild bs k → forward_parent ≡ some d → pos + d ≢ k)
    → Frames es (set bs pos (start kind forward_parent))
Frames-set es bs pos kind forward_parent fr here apart = record {
  longer = omega (arith, length-set bs pos (start kind forward_parent), fr.longer);
  unlinked = λ k h n. unlinked k h (fr.unlinked k h n);
}
  where
    unlinked :
        (k : ℕ)
        → k < length es
        → NoChild bs k
        → (i : ℕ) (kind' : SyntaxKind) (d : ℕ)
        → get_elem? (set bs pos (start kind forward_parent)) i ≡ some (start kind' (some d))
        → i + d ≢ k
    unlinked k h n i kind' d at_i = elim (Bool-cases (pos == i)) [
      | inl e ↦
          let same : pos ≡ i = (==_iff pos i).0 e in
          let there = get_elem?-set_self bs pos (start kind forward_parent) here in
          let linked : forward_parent ≡ some d = cc (there, same, at_i) in
          λ hit. apart k d h n linked (omega (arith, same, hit))
      | inr e ↦ n i kind' d (
          sym (
            get_elem?-set_ne bs pos i (start kind forward_parent)
              (λ same. cc ((==_iff pos i).1 same, e)))
          ∙ at_i)
    ]

at_take :
    (es : List Event) (n i : ℕ) (x : Event)
    → get_elem? (take n es) i ≡ some x
    → get_elem? es i ≡ some x
at_take [] zero i x h = cc h
at_take [] (suc n) i x h = h
at_take (e ∷ es) zero i x h = cc h
at_take (e ∷ es) (suc n) zero x h = h
at_take (e ∷ es) (suc n) (suc i) x h = at_take es n i x h

-- What is known about the events before the last one, which is dropped.
module _ (es : List Event) (pos : ℕ) (last : pos ≤ length es) where
  Holds-take :
      (f : Fact) (fs : List Fact) → place f < pos → Holds es f fs → Holds (take pos es) f fs
  Holds-take (below k) fs e h = omega (arith, length-take pos es last, e)
  Holds-take (alone k) fs e h = (
    omega (arith, length-take pos es last, e),
    λ i kind d at_i. h.1 i kind d (at_take es pos i (start kind (some d)) at_i),
    h.2,
  )

  pub Held-take : (fs : List Fact) → Earlier pos fs → Held es fs → Held (take pos es) fs
  Held-take [] e h = tt
  Held-take (f ∷ fs) e h = (Holds-take f fs e.0 h.0, Held-take fs e.1 h.1)

-- All that is held is about events that are there.
pub Earlier-length : (es : List Event) (fs : List Fact) → Held es fs → Earlier (length es) fs
Earlier-length es [] h = tt
Earlier-length es (below k ∷ fs) h = (h.0, Earlier-length es fs h.1)
Earlier-length es (alone k ∷ fs) h = (h.0.0, Earlier-length es fs h.1)

-- The event at a position is known to be there.
pub data Has (k : ℕ) : List Fact → Type 0 where
  has_below : {fs : List Fact} → Has k (below k ∷ fs)
  has_alone : {fs : List Fact} → Has k (alone k ∷ fs)
  has_later : {f : Fact} {fs : List Fact} → Has k fs → Has k (f ∷ fs)

pub lt_of_Has : {k : ℕ} {fs : List Fact} (es : List Event) → Has k fs → Held es fs → k < length es
lt_of_Has es has_below h = h.0
lt_of_Has es has_alone h = h.0.0
lt_of_Has es (has_later m) h = lt_of_Has es m h.1

-- The second list is what is left of the first when some of it is forgotten.
pub data Forgets : List Fact → List Fact → Type 0 where
  forgets_none : {fs : List Fact} → Forgets fs fs
  forgets_one : {f : Fact} {fs gs : List Fact} → Forgets fs gs → Forgets (f ∷ fs) gs

pub Held-Forgets : {fs gs : List Fact} (es : List Event) → Forgets fs gs → Held es fs → Held es gs
Held-Forgets es forgets_none h = h
Held-Forgets es (forgets_one d) h = Held-Forgets es d h.1

Earlier-Forgets : {fs gs : List Fact} (k : ℕ) → Forgets fs gs → Earlier k fs → Earlier k gs
Earlier-Forgets k forgets_none h = h
Earlier-Forgets k (forgets_one d) h = Earlier-Forgets k d h.1

-- Below other facts too.
Earlier-append-Forgets :
    {fs gs : List Fact} (k : ℕ) (new : List Fact)
    → Forgets fs gs
    → Earlier k (new ++ fs)
    → Earlier k (new ++ gs)
Earlier-append-Forgets k [] d h = Earlier-Forgets k d h
Earlier-append-Forgets k (f ∷ new) d h = (h.0, Earlier-append-Forgets k new d h.1)

Holds-append-Forgets :
    {fs gs : List Fact} (es : List Event) (f : Fact) (new : List Fact)
    → Forgets fs gs
    → Holds es f (new ++ fs)
    → Holds es f (new ++ gs)
Holds-append-Forgets es (below k) new d h = h
Holds-append-Forgets es (alone k) new d h = (h.0, h.1, Earlier-append-Forgets k new d h.2)

pub Held-append-Forgets :
    {fs gs : List Fact} (es : List Event) (new : List Fact)
    → Forgets fs gs
    → Held es (new ++ fs)
    → Held es (new ++ gs)
Held-append-Forgets es [] d h = Held-Forgets es d h
Held-append-Forgets es (f ∷ new) d h =
    (Holds-append-Forgets es f new d h.0, Held-append-Forgets es new d h.1)
