-- ===== src/Outputs/StatusLed.antt =====
-- firmware/main/drivers/output/status_led.c: the status LED.
use fortunelabs_mainboard_l.Prelude.{
  ℕ, ◌^◌, Bool, true, false, not, ◌||◌, ◌∷◌, Option, none, some, if◌then◌else◌, leb, test_bit, xor,
}
use fortunelabs_mainboard_l.Platform.{
  Err, ok, err, fail, invalid_arg, is_ok, Pointer, is_null, Platform, Call, Trace, gpio, config,
  set_level, reset_pin,
}

abbrev pub num_channels : ℕ
num_channels = 1

-- `GPIO_NUM_4`
abbrev pub default_gpio : ℕ
default_gpio = 4

-- `status_led_config_t`
pub record LedConfig : Type 0 where
  pub gpio_num : ℕ
  pub active_low : Bool

-- The static variables of the file, and the calls made so far.
pub record State : Type 0 where
  pub is_initialized : Bool
  pub channel_state : Bool
  pub gpio_num : ℕ
  pub active_low : Bool
  pub trace : Trace

-- `cfg->extra`, if both pointers are given; else the defaults.
abbrev pub led_config : Option LedConfig → LedConfig
led_config none = record { gpio_num = default_gpio; active_low = false }
led_config (some c) = c

-- `_status_led_level`
abbrev pub level : Bool → Bool → ℕ
level active_low b = if xor b active_low then 1 else 0

-- `status_led_get`: the cached state.
unfoldable pub get : ℕ → Pointer → State → Err × Option Bool
get channel out s =
    if not s.is_initialized || is_null out
    then (err fail, none)
    else (if leb num_channels channel then (err invalid_arg, none) else (ok, some s.channel_state))

-- `status_led_deinit`
unfoldable pub deinit : State → State
deinit s = if not s.is_initialized then s else record s {
  is_initialized = false;
  channel_state = false;
  trace =
      gpio (reset_pin s.gpio_num)
      ∷ gpio (set_level s.gpio_num (level s.active_low false))
      ∷ s.trace;
}

module _ (P : Platform) where
  -- `status_led_init`; the argument is `cfg->extra`, if there is one.
  unfoldable pub init : Option LedConfig → State → Err × State
  init cfg s =
      if s.is_initialized
      then (ok, s)
      else (let c = led_config cfg in
          let setup : Call = gpio (config (2 ^ c.gpio_num)) in
          if not (P.valid_output c.gpio_num)
          then (err invalid_arg, s)
          else elim (P.status s.trace setup) [
            | err e ↦ (err e, record s { trace = setup ∷ s.trace })
            | ok ↦ (
              ok,
              record {
                is_initialized = true;
                channel_state = false;
                gpio_num = c.gpio_num;
                active_low = c.active_low;
                trace = gpio (set_level c.gpio_num (level c.active_low false)) ∷ setup ∷ s.trace;
              },
            )
          ])

  -- `status_led_set`
  unfoldable pub set : ℕ → Bool → State → Err × State
  set channel b s =
      if not s.is_initialized
      then (err fail, s)
      else (if leb num_channels channel
          then (err invalid_arg, s)
          else (let c : Call = gpio (set_level s.gpio_num (level s.active_low b)) in
              let r = P.status s.trace c in
              (
                r,
                record s {
                  channel_state = if is_ok r then b else s.channel_state;
                  trace = c ∷ s.trace;
                },
              )))

  -- `status_led_set_all`
  unfoldable pub set_all : ℕ → State → Err × State
  set_all bitmask s = if not s.is_initialized then (err fail, s) else set 0 (test_bit bitmask 0) s
