-- ===== src/Prelude/Bits.antt =====
-- Bits of a byte: the bit operations as C applies them to a `uint8_t`, and their laws, which are
-- checked on every byte.
use Prim.Native.Nat.{ℕ, zero, suc, ◌-◌, ◌%◌, ◌^◌, ◌<◌, bit_and, bit_or, bit_xor}
use mathlib.Core.Path.{◌≡◌, refl}
use mathlib.Core.Bool.{Bool, true, false, not, ◌&&◌}
use native.Mathlib.Omega.{arith}
use fortunelabs_mainboard_l.Prelude.Tests.{◌==◌, ==_iff, ltb, if◌then◌else◌}

-- `(uint8_t)(1u << pin)`
abbrev pub bit : ℕ → ℕ
bit pin = 2 ^ pin % 256

-- `x | (uint8_t)(1u << pin)`, `x & (uint8_t)~(1u << pin)`, `x ^ (uint8_t)(1u << pin)`
unfoldable pub set_bit : ℕ → ℕ → ℕ
set_bit x pin = bit_or x (bit pin)

unfoldable pub clear_bit : ℕ → ℕ → ℕ
clear_bit x pin = bit_and x (255 - bit pin)

unfoldable pub toggle_bit : ℕ → ℕ → ℕ
toggle_bit x pin = bit_xor x (bit pin)

-- `(x & (uint8_t)(1u << pin)) != 0u`
unfoldable pub test_bit : ℕ → ℕ → Bool
test_bit x pin = not (bit_and x (bit pin) == 0)

abbrev pub same_bool : Bool → Bool → Bool
same_bool true b = b
same_bool false b = not b

same_bool→eq : (a b : Bool) → same_bool a b ≡ true → a ≡ b
same_bool→eq a b h = ground arith

-- A test of every number under a limit, and what it says of one of them.
unfoldable pub check_to : (ℕ → Bool) → ℕ → Bool
check_to test zero = true
check_to test (suc n) = check_to test n && test n

pub check_to_at : (test : ℕ → Bool) (n x : ℕ) → check_to test n ≡ true → x < n → test x ≡ true
unfolding check_to
check_to_at test zero x all below = absurd (omega arith)
check_to_at test (suc n) x all below = ground (arith, all, below, check_to_at test n x)

-- A test over a byte and two pins.
abbrev every : (ℕ → ℕ → ℕ → Bool) → Bool
every p = check_to (λ x. check_to (λ i. check_to (p x i) 8) 8) 256

every_sound :
    (p : ℕ → ℕ → ℕ → Bool) (x i k : ℕ) → every p ≡ true → x < 256 → i < 8 → k < 8 → p x i k ≡ true
every_sound p x i k h hx hi hk =
    check_to_at (p x i) 8 k
      (check_to_at (λ i. check_to (p x i) 8) 8 i
        (check_to_at (λ x. check_to (λ i. check_to (p x i) 8) 8) 256 x h hx) hi)
      hk

set_table :
    every (λ x i k. same_bool (test_bit (set_bit x i) k) (if k == i then true else test_bit x k))
    ≡ true
unfolding check_to test_bit set_bit
set_table = refl

clear_table :
    every (λ x i k. same_bool (test_bit (clear_bit x i) k) (if k == i then false else test_bit x k))
    ≡ true
unfolding check_to test_bit clear_bit
clear_table = refl

toggle_table :
    every (λ x i k.
      same_bool (test_bit (toggle_bit x i) k) (if k == i then not (test_bit x k) else test_bit x k))
    ≡ true
unfolding check_to test_bit toggle_bit
toggle_table = refl

range_table :
    every (λ x i k. ltb (set_bit x i) 256 && ltb (clear_bit x i) 256 && ltb (toggle_bit x i) 256)
    ≡ true
unfolding check_to set_bit clear_bit toggle_bit
range_table = refl

twice_table : every (λ x i k. toggle_bit (toggle_bit x i) i == x) ≡ true
unfolding check_to toggle_bit
twice_table = refl

module _ (x i : ℕ) (hx : x < 256) (hi : i < 8) where
  pub test_bit-set_bit :
      (k : ℕ) → k < 8 → test_bit (set_bit x i) k ≡ (if k == i then true else test_bit x k)
  test_bit-set_bit k hk = same_bool→eq _ _ (every_sound _ x i k set_table hx hi hk)

  pub test_bit-clear_bit :
      (k : ℕ) → k < 8 → test_bit (clear_bit x i) k ≡ (if k == i then false else test_bit x k)
  test_bit-clear_bit k hk = same_bool→eq _ _ (every_sound _ x i k clear_table hx hi hk)

  pub test_bit-toggle_bit :
      (k : ℕ)
      → k < 8
      → test_bit (toggle_bit x i) k ≡ (if k == i then not (test_bit x k) else test_bit x k)
  test_bit-toggle_bit k hk = same_bool→eq _ _ (every_sound _ x i k toggle_table hx hi hk)

  pub bits-lt : (set_bit x i < 256) × (clear_bit x i < 256) × (toggle_bit x i < 256)
  bits-lt = ground (arith, every_sound _ x i i range_table hx hi hi)

  pub toggle_bit-toggle_bit : toggle_bit (toggle_bit x i) i ≡ x
  toggle_bit-toggle_bit = (==_iff _ x).0 (every_sound _ x i i twice_table hx hi hi)
