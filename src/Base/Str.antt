-- ===== src/Base/Str.antt =====
-- `str` of the Rust standard library: a text is the list of its code points, measured in the bytes
-- of its UTF-8 encoding. `none` is the panic of an index that is no character boundary.
use rust_analyzer.Base.{
  ℕ, zero, suc, ◌+◌, ◌-◌, ◌<◌, ◌≡◌, refl, Bool, true, false, ◌&&◌, ◌||◌, List, [], ◌∷◌, ◌++◌,
  Option, none, some, arith, ltb, ◌==◌, if◌then◌else◌, ◌>>=◌,
}

-- `char::len_utf8`, which `TextUnit::of_char` returns.
unfoldable pub len_utf8 : ℕ → ℕ
len_utf8 c = if ltb c 0x80 then 1 else if ltb c 0x800 then 2 else if ltb c 0x10000 then 3 else 4

-- `str::len`
unfoldable pub str_len : List ℕ → ℕ
unfolding len_utf8
str_len [] = 0
str_len (c ∷ s) = len_utf8 c + str_len s

-- `str::starts_with`
abbrev pub starts_with : List ℕ → List ℕ → Bool
starts_with s [] = true
starts_with [] (c ∷ t) = false
starts_with (d ∷ s) (c ∷ t) = d == c && starts_with s t

-- `str::contains`
unfoldable pub contains : List ℕ → List ℕ → Bool
contains [] t = starts_with [] t
contains (c ∷ s) t = starts_with (c ∷ s) t || contains s t

abbrev cons_first : ℕ → List ℕ × List ℕ → List ℕ × List ℕ
cons_first c (s, t) = (c ∷ s, t)

-- `str::split_at`
unfoldable pub split_at : List ℕ → ℕ → Option (List ℕ × List ℕ)
unfolding len_utf8
split_at s zero = some ([], s)
split_at [] (suc n) = none
split_at (c ∷ s) (suc n) =
    let cut = split_at s (suc n - len_utf8 c) >>= λ p. some (cons_first c p) in
    if ltb (suc n) (len_utf8 c) then none else cut

-- `&s[start..]`
unfoldable pub slice_from : List ℕ → ℕ → Option (List ℕ)
slice_from s start = split_at s start >>= λ (a, b). some b

-- `&s[start..start + len]`
unfoldable pub slice : List ℕ → ℕ → ℕ → Option (List ℕ)
slice s start len = slice_from s start >>= λ b. split_at b len >>= λ (a, r). some a

pub len_utf8_pos : (c : ℕ) → 0 < len_utf8 c
unfolding len_utf8
len_utf8_pos c = ground arith

split_at-skip :
    (c : ℕ) (s : List ℕ) (m n : ℕ)
    → 0 < m
    → m ≡ len_utf8 c + n
    → split_at (c ∷ s) m ≡ (split_at s n >>= λ p. some (cons_first c p))
unfolding split_at
split_at-skip c s zero n h e = elim h [ ]
split_at-skip c s (suc m) n h e =
    let skip : suc m - len_utf8 c ≡ n = omega arith in rw skip (ground arith)

-- Splitting off the bytes of a prefix.
pub split_at-append : (s t : List ℕ) → split_at (s ++ t) (str_len s) ≡ some (s, t)
unfolding str_len split_at
split_at-append [] t = refl
split_at-append (c ∷ s) t = rw (
  split_at-skip c (s ++ t) (len_utf8 c + str_len s) (str_len s) (omega (arith, len_utf8_pos c))
      refl,
  split_at-append s t,
)

pub slice_from-append : (s t : List ℕ) → slice_from (s ++ t) (str_len s) ≡ some t
unfolding slice_from
slice_from-append s t = rw (split_at-append s t)

pub str_len-append : (s t : List ℕ) → str_len (s ++ t) ≡ str_len s + str_len t
unfolding str_len
str_len-append [] t = omega arith
str_len-append (c ∷ s) t = omega (arith, str_len-append s t)

pub slice-append : (s t u : List ℕ) → slice (s ++ (t ++ u)) (str_len s) (str_len t) ≡ some t
unfolding slice
slice-append s t u = rw (slice_from-append s (t ++ u), split_at-append t u)
