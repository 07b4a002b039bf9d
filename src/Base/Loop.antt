-- ===== src/Base/Loop.antt =====
-- Loops with `break`, `continue` and `return`: the body says how it goes on, and the number of
-- rounds is bounded by a measure of the state.
use rust_analyzer.Base.{ℕ, zero, suc, ◌<◌, ◌≡◌, refl, arith}

-- One round ends by going `again` with a new state, or by a `stop` with the result.
pub data Flow {ℓ} (S A : Type ℓ) : Type ℓ where
  again : S → Flow S A
  stop : A → Flow S A

module _ {ℓ} {S A : Type ℓ} where
  -- The rest of the loop after one round.
  abbrev pub continue : (S → A) → Flow S A → A
  continue rest (again t) = rest t
  continue rest (stop a) = a

  -- `spent` is the result when the rounds run out, which `loop_eq` shows not to happen.
  pub loop_rounds : ℕ → (S → Flow S A) → (S → A) → S → A
  loop_rounds zero body spent s = spent s
  loop_rounds (suc n) body spent s = continue (λ t. loop_rounds n body spent t) (body s)

  unfoldable pub loop : (S → ℕ) → (S → Flow S A) → (S → A) → S → A
  unfolding loop_rounds
  loop measure body spent s = loop_rounds (suc (measure s)) body spent s

  -- What a round gives for the invariant `P` of the states and the property `Q` of the result.
  abbrev pub RoundKeeps {κ} : (S → Type κ) → (A → Type κ) → Flow S A → Type κ
  RoundKeeps P Q (again t) = P t
  RoundKeeps P Q (stop a) = Q a

  -- Going on means a smaller measure.
  abbrev pub RoundFalls : (S → ℕ) → ℕ → Flow S A → Type 0
  RoundFalls measure n (again t) = measure t < n
  RoundFalls measure n (stop a) = Unit {0}

  continue-cong :
      (measure : S → ℕ) (n : ℕ) (g h : S → A) (f : Flow S A)
      → ((t : S) → measure t < n → g t ≡ h t)
      → RoundFalls measure n f
      → continue g f ≡ continue h f
  continue-cong measure n g h (again t) e lt = e t lt
  continue-cong measure n g h (stop a) e lt = refl

module _ {ℓ} {S A : Type ℓ} (measure : S → ℕ) (body : S → Flow S A) (spent : S → A)
    (falls : (s : S) → RoundFalls measure (measure s) (body s)) where
  rounds_eq :
      (m n : ℕ) (s : S)
      → measure s < m
      → measure s < n
      → loop_rounds m body spent s ≡ loop_rounds n body spent s
  unfolding loop_rounds
  rounds_eq zero n s h k = elim h [ ]
  rounds_eq (suc m) zero s h k = elim k [ ]
  rounds_eq (suc m) (suc n) s h k =
      continue-cong measure (measure s) (loop_rounds m body spent) (loop_rounds n body spent)
        (body s) (λ t lt. rounds_eq m n t (omega arith) (omega arith)) (falls s)

  -- The loop is its first round, followed by the loop: the rounds never run out.
  pub loop_eq : (s : S) → loop measure body spent s ≡ continue (loop measure body spent) (body s)
  unfolding loop loop_rounds
  loop_eq s =
      continue-cong measure (measure s) (loop_rounds (measure s) body spent)
        (loop measure body spent) (body s)
        (λ t lt. rounds_eq (measure s) (suc (measure t)) t lt (omega arith)) (falls s)

  module _ {κ} (P : S → Type κ) (Q : A → Type κ)
      (keeps : (s : S) → P s → RoundKeeps P Q (body s)) where
    round-keeps :
        (n : ℕ) (s : S) (f : Flow S A)
        → ((t : S) → measure t < n → P t → Q (loop measure body spent t))
        → RoundFalls measure n f
        → RoundKeeps P Q f
        → Q (continue (loop measure body spent) f)
    round-keeps n s (again t) ih lt p = ih t lt p
    round-keeps n s (stop a) ih lt q = q

    rounds-keep : (n : ℕ) (s : S) → measure s < n → P s → Q (loop measure body spent s)
    rounds-keep zero s h p = elim h [ ]
    rounds-keep (suc n) s h p = rw (loop_eq s) (
        round-keeps (measure s) s (body s) (λ t lt. rounds-keep n t (omega arith)) (falls s)
          (keeps s p))

    -- The invariant rule.
    pub loop-keeps : (s : S) → P s → Q (loop measure body spent s)
    loop-keeps s p = rounds-keep (suc (measure s)) s (omega arith) p
