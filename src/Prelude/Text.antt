-- ===== src/Prelude/Text.antt =====
-- C strings as lists of bytes, without the terminating NUL.
use Prim.Native.Nat.{ℕ, zero, suc, ◌+◌, ◌-◌, ◌/◌, ◌%◌, ◌<◌, ◌≤◌}
use Prim.Native.Char.{code}
use Prim.Native.String.{String}
use mathlib.Core.Path.{◌≡◌, refl}
use mathlib.Core.Bool.{Bool, true, false, ◌&&◌}
use mathlib.Core.List.{List, [], ◌∷◌}
use native.Mathlib.Omega.{arith}
use fortunelabs_mainboard_l.Prelude.Tests.{◌==◌, ltb, if◌then◌else◌}
use fortunelabs_mainboard_l.Prelude.Lists.{length, take}

abbrev pub codes : String → List ℕ
codes String.[] = []
codes (String.◌∷◌ c s) = code c ∷ codes s

abbrev pub is_empty : List ℕ → Bool
is_empty [] = true
is_empty (c ∷ s) = false

-- What `strlcpy`, or `snprintf` with a string already formatted, leaves in a buffer of `size`
-- bytes, `size` not 0.
abbrev pub truncate : ℕ → List ℕ → List ℕ
truncate size s = take (size - 1) s

abbrev pub eq_bytes : List ℕ → List ℕ → Bool
eq_bytes [] [] = true
eq_bytes [] (b ∷ bs) = false
eq_bytes (a ∷ as') [] = false
eq_bytes (a ∷ as') (b ∷ bs) = a == b && eq_bytes as' bs

pub eq_bytes_refl : (s : List ℕ) → eq_bytes s s ≡ true
eq_bytes_refl [] = refl
eq_bytes_refl (a ∷ s) = ground (arith, eq_bytes_refl s)

-- A digit of `%x`, and `%02x` of a byte.
abbrev pub hex_digit : ℕ → ℕ
hex_digit d = if ltb d 10 then b'0' + d else b'a' + (d - 10)

abbrev pub hex_byte : ℕ → List ℕ
hex_byte b = hex_digit (b / 16) ∷ hex_digit (b % 16) ∷ []

length-take : (n : ℕ) (s : List ℕ) → length (take n s) ≤ n
length-take zero s = omega arith
length-take (suc n) [] = omega arith
length-take (suc n) (c ∷ s) = omega (arith, length-take n s)

pub length-truncate : (size : ℕ) (s : List ℕ) → 0 < size → length (truncate size s) < size
length-truncate size s h = omega (arith, length-take (size - 1) s)

pub truncate_short : (size : ℕ) (s : List ℕ) → length s < size → truncate size s ≡ s
truncate_short size s h = take_all (size - 1) s (omega arith)
  where
    take_all : (n : ℕ) (s : List ℕ) → length s ≤ n → take n s ≡ s
    take_all zero [] h = refl
    take_all zero (c ∷ s) h = absurd (omega arith)
    take_all (suc n) [] h = refl
    take_all (suc n) (c ∷ s) h = rw (take_all n s (omega arith))
