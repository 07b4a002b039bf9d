-- ===== src/Base/Bits.antt =====
-- Single bits of the native numbers, and the `&` and `|` of machine words in terms of them.
use Prim.Native.Nat.{min, max, bit_and, bit_or, digits, bit_and-bitwise, bit_or-bitwise}
use native.Mathlib.Nat.{pow-suc}
use rust_analyzer.Base.{
  ℕ, zero, suc, ◌+◌, ◌*◌, ◌/◌, ◌%◌, ◌^◌, ◌≤◌, ◌<◌, ◌≡◌, refl, ap, ◌∙◌, sym, ◌≢◌, ◌⊎◌, arith,
}

-- The `k`-th bit of `a`, 0 or 1.
abbrev pub bit : ℕ → ℕ → ℕ
bit a zero = a % 2
bit a (suc k) = bit (a / 2) k

-- A bitwise operation, from the one on digits and what it makes of the second argument when the first
-- is used up: more rounds than the first argument change nothing.
module _ (rest : ℕ → ℕ) (op : ℕ → ℕ → ℕ) where
  abbrev bitwise : ℕ → ℕ → ℕ
  bitwise x y = digits rest op x x y

  enough_rounds : (x y r r' : ℕ) → x ≤ r → x ≤ r' → digits rest op r x y ≡ digits rest op r' x y
  enough_rounds zero y zero zero le le' = refl
  enough_rounds zero y zero (suc r') le le' = refl
  enough_rounds zero y (suc r) zero le le' = refl
  enough_rounds zero y (suc r) (suc r') le le' = refl
  enough_rounds (suc x) y zero r' le le' = absurd (omega arith)
  enough_rounds (suc x) y (suc r) zero le le' = absurd (omega arith)
  enough_rounds (suc x) y (suc r) (suc r') le le' =
      omega (arith, enough_rounds (suc x / 2) (y / 2) r r' (omega arith) (omega arith))

  -- The lowest digit of a result, and the digits above it.
  bitwise-suc :
      (x y : ℕ) → bitwise (suc x) y ≡ bitwise (suc x / 2) (y / 2) * 2 + op (suc x % 2) (y % 2)
  bitwise-suc x y =
      omega (arith, enough_rounds (suc x / 2) (y / 2) x (suc x / 2) (omega arith) (omega arith))

bit_and_step : (x y : ℕ) → bit_and x y ≡ bit_and (x / 2) (y / 2) * 2 + min (x % 2) (y % 2)
bit_and_step zero y = omega (arith, bit_and-bitwise 0 y, bit_and-bitwise 0 (y / 2))
bit_and_step (suc x) y =
    let lowest = bitwise-suc (λ b. zero) min x y in
    bit_and-bitwise (suc x) y
    ∙ lowest
    ∙ ap (λ (t : ℕ). t * 2 + min (suc x % 2) (y % 2)) (sym (bit_and-bitwise (suc x / 2) (y / 2)))

bit_or_step : (x y : ℕ) → bit_or x y ≡ bit_or (x / 2) (y / 2) * 2 + max (x % 2) (y % 2)
bit_or_step zero y = omega (arith, bit_or-bitwise 0 y, bit_or-bitwise 0 (y / 2))
bit_or_step (suc x) y =
    let lowest = bitwise-suc (λ b. b) max x y in
    bit_or-bitwise (suc x) y
    ∙ lowest
    ∙ ap (λ (t : ℕ). t * 2 + max (suc x % 2) (y % 2)) (sym (bit_or-bitwise (suc x / 2) (y / 2)))

bit-lt_two : (a k : ℕ) → bit a k < 2
bit-lt_two a zero = omega arith
bit-lt_two a (suc k) = bit-lt_two (a / 2) k

-- `|` works bit by bit.
pub bit-bit_or : (k a b : ℕ) → bit (bit_or a b) k ≡ max (bit a k) (bit b k)
bit-bit_or zero a b = omega (arith, bit_or_step a b)
bit-bit_or (suc k) a b =
    let half : bit_or a b / 2 ≡ bit_or (a / 2) (b / 2) = omega (arith, bit_or_step a b) in
    rw half (bit-bit_or k (a / 2) (b / 2))

half_pow : (k : ℕ) → 2 ^ suc k ≡ 2 ^ k * 2
half_pow k = omega (arith, pow-suc 2 k)

no_bits_left : (r x : ℕ) → x ≤ r → bit_and x 0 ≡ 0
no_bits_left r zero le = refl
no_bits_left zero (suc x) le = absurd (omega arith)
no_bits_left (suc r) (suc x) le =
    omega (arith, no_bits_left r (suc x / 2) (omega arith), bit_and_step (suc x) 0)

-- `&` with a mask of one bit selects that bit.
pub bit_and-pow : (k a : ℕ) → bit_and a (2 ^ k) ≡ bit a k * 2 ^ k
bit_and-pow zero a = omega (arith, bit_and_step a 1, no_bits_left (a / 2) (a / 2) (omega arith))
bit_and-pow (suc k) a =
    let half : 2 ^ suc k / 2 ≡ 2 ^ k = omega (arith, half_pow k) in
    let step : bit_and a (2 ^ suc k) ≡ bit_and (a / 2) (2 ^ suc k / 2) * 2 + min (a % 2) 0 =
      omega (arith, bit_and_step a (2 ^ suc k), half_pow k) in
    let ih : bit_and (a / 2) (2 ^ suc k / 2) ≡ bit (a / 2) k * 2 ^ k =
      rw half (bit_and-pow k (a / 2)) in
    omega (arith, step, ih, ap (λ (t : ℕ). bit (a / 2) k * t) (half_pow k))

pow_pos : (k : ℕ) → 0 < 2 ^ k
pow_pos zero = omega arith
pow_pos (suc k) = omega (arith, half_pow k, pow_pos k)

pub bit_zero : (k : ℕ) → bit 0 k ≡ 0
bit_zero zero = refl
bit_zero (suc k) = bit_zero k

-- A power of two has one bit.
pub bit-pow_self : (k : ℕ) → bit (2 ^ k) k ≡ 1
bit-pow_self zero = refl
bit-pow_self (suc k) =
    let half : 2 ^ suc k / 2 ≡ 2 ^ k = omega (arith, half_pow k) in rw half (bit-pow_self k)

pub bit-pow_ne : (j k : ℕ) → j ≢ k → bit (2 ^ j) k ≡ 0
bit-pow_ne zero zero h = absurd (h refl)
bit-pow_ne zero (suc k) h = bit_zero k
bit-pow_ne (suc j) zero h = omega (arith, half_pow j)
bit-pow_ne (suc j) (suc k) h =
    let half : 2 ^ suc j / 2 ≡ 2 ^ j = omega (arith, half_pow j) in
    rw half (bit-pow_ne j k (λ e. h (ap suc e)))

pub bit_cases : (a k : ℕ) → (bit a k ≡ 0) ⊎ (bit a k ≡ 1)
bit_cases a k = omega (arith, bit-lt_two a k)

pub bit_and-pow_ne : (k a : ℕ) → bit a k ≡ 1 → bit_and a (2 ^ k) ≢ 0
bit_and-pow_ne k a h e = grind (arith, bit_and-pow k a, pow_pos k)

pub bit_and-pow_zero : (k a : ℕ) → bit a k ≡ 0 → bit_and a (2 ^ k) ≡ 0
bit_and-pow_zero k a h = grind (arith, bit_and-pow k a)
