-- ===== src/Parser/Process/Links.antt =====
-- The forward parents of the events (crates/ra_syntax/src/parser_impl/event.rs): following them.
use rust_analyzer.Base.{
  ℕ, zero, suc, ◌+◌, ◌≤◌, ◌<◌, ◌≡◌, refl, ◌∙◌, sym, ap, List, [], ◌∷◌, Option, none, some, arith,
  length, get_elem?, set, length-set, get_elem?-set_self, get_elem?-set_ne, lt_of_get_elem?, map,
  subst, reverse_aux, Bool, true, false, ◌==◌, ◌||◌, if◌then◌else◌, Bool-cases, inl, inr,
}
use native.Mathlib.Decide.{ℕ_discrete}
use rust_analyzer.SyntaxKind
use rust_analyzer.SyntaxKind.{SyntaxKind}
use rust_analyzer.Parser.Event
use rust_analyzer.Parser.Event.{Event, start, finish, token, error}
use rust_analyzer.Parser.Process.{follow}

-- An event that starts a node.
pub record StartsNode (event : Option Event) : Type 0 where
  pub kind : SyntaxKind
  pub forward_parent : Option ℕ
  pub is_start : event ≡ some (start kind forward_parent)

-- Every forward parent is a start event further on.
abbrev pub LinksTo : List Event → ℕ → Option ℕ → Type 0
LinksTo events i none = Unit {0}
LinksTo events i (some d) = (0 < d) × StartsNode (get_elem? events (i + d))

pub record IsLinked (events : List Event) : Type 0 where
  pub links :
      (i : ℕ) (kind : SyntaxKind) (forward_parent : Option ℕ)
      → get_elem? events i ≡ some (start kind forward_parent)
      → LinksTo events i forward_parent

-- What is left of an event when its links and kinds are forgotten.
unfoldable pub shape : Event → Event
shape (start kind forward_parent) = Event.tombstone
shape finish = finish
shape (token kind n) = token kind n
shape (error msg) = error msg

-- Putting a tombstone in place of an event.
set-tombstone_self :
    (events : List Event) (i j : ℕ)
    → i ≡ j
    → j < length events
    → get_elem? (set events i Event.tombstone) j ≡ some Event.tombstone
set-tombstone_self events i j e h =
    subst (λ k. get_elem? (set events k Event.tombstone) j ≡ some Event.tombstone) (sym e)
      (get_elem?-set_self events j Event.tombstone h)

StartsNode-set :
    (events : List Event) (i j : ℕ)
    → StartsNode (get_elem? events j)
    → StartsNode (get_elem? (set events i Event.tombstone) j)
StartsNode-set events i j s = elim (ℕ_discrete i j) [
  | yes e ↦ record {
    kind = SyntaxKind.tombstone;
    forward_parent = none;
    is_start = set-tombstone_self events i j e (lt_of_get_elem? events j _ s.is_start);
  }
  | no ne ↦ record {
    kind = s.kind;
    forward_parent = s.forward_parent;
    is_start = get_elem?-set_ne events i j Event.tombstone ne ∙ s.is_start;
  }
]

pub IsLinked-set :
    (events : List Event) (i : ℕ) → IsLinked events → IsLinked (set events i Event.tombstone)
IsLinked-set events i l = record { links = go }
  where
    go :
        (k : ℕ) (kind : SyntaxKind) (forward_parent : Option ℕ)
        → get_elem? (set events i Event.tombstone) k ≡ some (start kind forward_parent)
        → LinksTo (set events i Event.tombstone) k forward_parent
    go k kind none h = tt
    go k kind (some d) h = elim (ℕ_discrete i k) [
      | yes e ↦
          let below : k < length events = omega (
            arith,
            length-set events i Event.tombstone,
            lt_of_get_elem? (set events i Event.tombstone) k _ h,
          ) in
          let contra : ⊥ = cc (set-tombstone_self events i k e below) in absurd contra
      | no ne ↦
          let old =
            l.links k kind (some d) (sym (get_elem?-set_ne events i k Event.tombstone ne) ∙ h) in
          (old.0, StartsNode-set events i (k + d) old.1)
    ]

pub LinksTo-set :
    (events : List Event) (i j : ℕ) (forward_parent : Option ℕ)
    → LinksTo events j forward_parent
    → LinksTo (set events i Event.tombstone) j forward_parent
LinksTo-set events i j none h = tt
LinksTo-set events i j (some d) h = (h.0, StartsNode-set events i (j + d) h.1)

pub shape-set :
    (events : List Event) (i : ℕ)
    → StartsNode (get_elem? events i)
    → map shape (set events i Event.tombstone) ≡ map shape events
unfolding shape
shape-set [] i s = refl
shape-set (start kind forward_parent ∷ es) zero s = refl
shape-set (e ∷ es) zero s = absurd (cc (s.is_start))
shape-set (e ∷ es) (suc i) s = ap (λ t. shape e ∷ t) (shape-set es i s)

-- The forward parents from an event on, and theirs in turn, up to one that has none: the places and
-- the kinds of these starts, in this order.
pub data Chain (events : List Event) : ℕ → Option ℕ → List ℕ → List SyntaxKind → Type 0 where
  ends : {i : ℕ} → Chain events i none [] []
  goes :
      {i d : ℕ} {kind : SyntaxKind} {forward_parent : Option ℕ} {places : List ℕ}
      {parents : List SyntaxKind}
      → get_elem? events (i + d) ≡ some (start kind forward_parent)
      → 0 < d
      → Chain events (i + d) forward_parent places parents
      → Chain events i (some d) ((i + d) ∷ places) (kind ∷ parents)

unfoldable pub among : ℕ → List ℕ → Bool
among k [] = false
among k (i ∷ places) = k == i || among k places

-- The event at `k` where the events at `places` became tombstones.
unfoldable pub buried : List Event → List ℕ → ℕ → Option Event
buried events places k = if among k places then some Event.tombstone else get_elem? events k

-- A chain goes forwards, so what became of an event before it does not matter.
Chain-set :
    (events : List Event) (j : ℕ) {i : ℕ} {forward_parent : Option ℕ} {places : List ℕ}
    {parents : List SyntaxKind}
    → j ≤ i
    → Chain (set events j Event.tombstone) i forward_parent places parents
    → Chain events i forward_parent places parents
Chain-set events j le ends = ends
Chain-set events j le (goes {i} {d} at pos c) =
    goes
      (sym (get_elem?-set_ne events j (i + d) Event.tombstone (λ e. omega (arith, e, le, pos)))
        ∙ at)
      pos (Chain-set events j (omega (arith, le)) c)

buried-if :
    (b : Bool) (events : List Event) (i k : ℕ)
    → i < length events
    → (k == i || b) ≡ true
    → (if b then some Event.tombstone else get_elem? (set events i Event.tombstone) k)
      ≡ some Event.tombstone
buried-if true events i k h e = refl
buried-if false events i k h e =
    set-tombstone_self events i k (ground (arith, e)) (ground (arith, e, h))

unburied-if :
    (b : Bool) (events : List Event) (i k : ℕ)
    → (k == i || b) ≡ false
    → (if b then some Event.tombstone else get_elem? (set events i Event.tombstone) k)
      ≡ get_elem? events k
unburied-if true events i k e = absurd (ground (arith, e))
unburied-if false events i k e =
    get_elem?-set_ne events i k Event.tombstone (λ same. ground (arith, e, same))

buried-set :
    (events : List Event) (i : ℕ) (places : List ℕ) (k : ℕ)
    → i < length events
    → buried (set events i Event.tombstone) places k ≡ buried events (i ∷ places) k
unfolding buried among
buried-set events i places k h = elim (Bool-cases (k == i || among k places)) [
  | inl e ↦ rw e (buried-if (among k places) events i k h e)
  | inr e ↦ rw e (unburied-if (among k places) events i k e)
]

-- What following links leaves: the chain of the forward parents, of which the kinds are put before
-- those that are there, the last one first, and the starts become tombstones; no other event
-- changes, and the events are linked still.
pub record Followed (events : List Event) (idx : ℕ) (forward_parent : Option ℕ)
    (kinds : List SyntaxKind) (o : Option (List SyntaxKind × List Event)) : Type 0 where
  pub places : List ℕ
  pub parents : List SyntaxKind
  pub chain : Chain events idx forward_parent places parents
  pub kinds' : List SyntaxKind
  pub events' : List Event
  pub returned : o ≡ some (kinds', events')
  pub latest_first : kinds' ≡ reverse_aux parents kinds
  pub left : (k : ℕ) → get_elem? events' k ≡ buried events places k
  pub linked : IsLinked events'
  pub same : map shape events' ≡ map shape events
  pub same_length : length events' ≡ length events

Followed-none :
    (idx : ℕ) (kinds : List SyntaxKind) (events : List Event)
    → IsLinked events
    → Followed events idx none kinds (some (kinds, events))
unfolding buried among
Followed-none idx kinds events l = record {
  places = [];
  parents = [];
  chain = ends;
  kinds' = kinds;
  events' = events;
  returned = refl;
  latest_first = refl;
  left = λ k. refl;
  linked = l;
  same = refl;
  same_length = refl;
}

-- In linked events, where the rounds reach from an event to the end of the list, following its
-- forward parents ends within them and does not panic. It puts the kinds of the whole chain of forward
-- parents before those that are there, the last one first; the starts of the chain become
-- tombstones, no other event changes, and the events are linked still.
pub Followed-follow :
    (rounds idx : ℕ) (forward_parent : Option ℕ) (kinds : List SyntaxKind) (events : List Event)
    → length events ≤ idx + rounds
    → LinksTo events idx forward_parent
    → IsLinked events
    → Followed events idx forward_parent kinds (follow rounds idx forward_parent kinds events)
unfolding follow
Followed-follow zero idx none kinds events h to l = Followed-none idx kinds events l
Followed-follow (suc rounds) idx none kinds events h to l = Followed-none idx kinds events l
Followed-follow zero idx (some d) kinds events h to l =
    absurd (omega (arith, lt_of_get_elem? events (idx + d) _ to.1.is_start))
Followed-follow (suc rounds) idx (some d) kinds events h to l =
    let at = idx + d in
    let rest =
      Followed-follow rounds at to.1.forward_parent (to.1.kind ∷ kinds)
        (set events at Event.tombstone) (omega (arith, length-set events at Event.tombstone))
        (LinksTo-set events at at to.1.forward_parent
          (l.links at to.1.kind to.1.forward_parent to.1.is_start))
        (IsLinked-set events at l) in
    rw to.1.is_start (record {
      places = at ∷ rest.places;
      parents = to.1.kind ∷ rest.parents;
      chain = goes to.1.is_start to.0 (Chain-set events at (omega arith) rest.chain);
      kinds' = rest.kinds';
      events' = rest.events';
      returned = rest.returned;
      latest_first = rest.latest_first;
      left = λ k.
          rest.left k
          ∙ buried-set events at rest.places k (lt_of_get_elem? events at _ to.1.is_start);
      linked = rest.linked;
      same = rest.same ∙ shape-set events at to.1;
      same_length = rest.same_length ∙ length-set events at Event.tombstone;
    })
