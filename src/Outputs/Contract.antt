-- ===== src/Outputs/Contract.antt =====
-- firmware/main/hal/output_driver.h: the contract of an output driver, as a record of operations
-- and of the laws that a client relies on.
use fortunelabs_mainboard_l.Prelude.{
  ℕ, ◌≡◌, Bool, false, [], ◌∷◌, Option, none, some, if◌then◌else◌, ◌==◌, ltb,
}
use fortunelabs_mainboard_l.Platform.{
  Err, ok, is_ok, Platform, Pointer, valid, Call, Trace, gpio, GpioCall, set_level,
}

-- `output_driver_t`: `get` gives the value stored through its out-pointer, if it is.
pub record OutputDriver : Type 1 where
  pub State : Type 0
  pub num_channels : ℕ
  pub set : ℕ → Bool → State → Err × State
  pub get : ℕ → Pointer → State → Err × Option Bool
  pub set_all : ℕ → State → Err × State
  -- A set that succeeds is read back on its channel.
  pub set_ok :
      (channel : ℕ) (b : Bool) (s : State)
      → (set channel b s).0 ≡ ok
      → get channel valid (set channel b s).1 ≡ (ok, some b)
  -- A set that fails changes nothing that can be read.
  pub set_err :
      (channel k : ℕ) (b : Bool) (s : State)
      → is_ok (set channel b s).0 ≡ false
      → get k valid (set channel b s).1 ≡ get k valid s
  -- A set on a channel that the driver does not have fails.
  pub set_range :
      (channel : ℕ) (b : Bool) (s : State)
      → ltb channel num_channels ≡ false
      → is_ok (set channel b s).0 ≡ false

-- The level that was last driven on a pin with ESP_OK.
module _ (P : Platform) where
  abbrev pub driven_gpio : ℕ → Trace → GpioCall → Option ℕ → Option ℕ
  driven_gpio pin t (set_level n level) old =
      if n == pin
      then (if is_ok (P.status t (gpio (set_level n level))) then some level else old)
      else old
  driven_gpio pin t _ old = old

  abbrev pub driven_call : ℕ → Trace → Call → Option ℕ → Option ℕ
  driven_call pin t (gpio c) old = driven_gpio pin t c old
  driven_call pin t _ old = old

  abbrev pub driven : ℕ → Trace → Option ℕ
  driven pin [] = none
  driven pin (c ∷ t) = driven_call pin t c (driven pin t)
