-- ===== src/Prelude/Int.antt =====
-- Signed numbers: the value of a 16-bit pattern.
use Prim.Native.Nat.{ℕ, ◌-◌, ◌^◌, ◌<◌, ◌%◌}
use mathlib.Core.Path.{◌≡◌}
use native.Mathlib.Omega.{arith}
use fortunelabs_mainboard_l.Prelude.Tests.{ltb, if◌then◌else◌}

-- `negsuc n` is -(n + 1).
pub data ℤ : Type 0 where
  pos : ℕ → ℤ
  negsuc : ℕ → ℤ

-- `(int16_t)w` of a `uint16_t`.
unfoldable pub signed16 : ℕ → ℤ
signed16 w = if ltb w (2 ^ 15) then pos w else negsuc (2 ^ 16 - w - 1)

-- The 16-bit pattern of a number.
abbrev pub pattern16 : ℤ → ℕ
pattern16 (pos n) = n % 2 ^ 16
pattern16 (negsuc n) = (2 ^ 16 - 1 - n % 2 ^ 16) % 2 ^ 16

-- From -2^15 to 2^15 - 1.
abbrev pub IsInt16 : ℤ → Type 0
IsInt16 (pos n) = n < 2 ^ 15
IsInt16 (negsuc n) = n < 2 ^ 15

pub signed16_lem : (w : ℕ) → w < 2 ^ 16 → IsInt16 (signed16 w) × (pattern16 (signed16 w) ≡ w)
unfolding signed16
signed16_lem w h = ground arith
