-- ===== src/Outputs/Laws.antt =====
-- firmware/main/drivers/output: the two drivers as implementations of the output contract, and the
-- pin of the status LED.
use fortunelabs_mainboard_l.Prelude.{
  ℕ, ◌≡◌, Bool, true, false, refl, List, [], ◌∷◌, Option, some, ltb, arith, test_bit, ◌^◌,
}
use fortunelabs_mainboard_l.Platform.{Trace, ok, is_ok, Platform, valid, gpio, set_level, config}
use fortunelabs_mainboard_l.Outputs.Contract.{OutputDriver, driven}
use fortunelabs_mainboard_l.Outputs.StatusLed
use fortunelabs_mainboard_l.Outputs.ActuatorDummy

-- The level of a pin that shows whether the LED on it is on, by the level that lights it.
abbrev pub level_of : Bool → Bool → ℕ
level_of false false = 0
level_of false true = 1
level_of true false = 1
level_of true true = 0

level-level_of : (active_low b : Bool) → StatusLed.level active_low b ≡ level_of active_low b
unfolding mathlib.Core.Bool.xor
level-level_of false false = refl
level-level_of false true = refl
level-level_of true false = refl
level-level_of true true = refl

-- The calls of the driver: its init, set, set_all and deinit.
pub data LedCall : Type 0 where
  start : Option StatusLed.LedConfig → LedCall
  put : ℕ → Bool → LedCall
  put_all : ℕ → LedCall
  stop : LedCall

module _ (P : Platform) where
  pub led_set_ok :
      (channel : ℕ) (b : Bool) (s : StatusLed.State)
      → (StatusLed.set P channel b s).0 ≡ ok
      → StatusLed.get channel valid (StatusLed.set P channel b s).1 ≡ (ok, some b)
  unfolding StatusLed.set StatusLed.get
  led_set_ok channel b s h = ground arith

  pub led_set_err :
      (channel k : ℕ) (b : Bool) (s : StatusLed.State)
      → is_ok (StatusLed.set P channel b s).0 ≡ false
      → StatusLed.get k valid (StatusLed.set P channel b s).1 ≡ StatusLed.get k valid s
  unfolding StatusLed.set StatusLed.get
  led_set_err channel k b s h = ground arith

  pub led_set_range :
      (channel : ℕ) (b : Bool) (s : StatusLed.State)
      → ltb channel StatusLed.num_channels ≡ false
      → is_ok (StatusLed.set P channel b s).0 ≡ false
  unfolding StatusLed.set
  led_set_range channel b s h = ground arith

  -- `status_led_driver`
  abbrev pub status_led_driver : OutputDriver
  status_led_driver = record {
    State = StatusLed.State;
    num_channels = StatusLed.num_channels;
    set = StatusLed.set P;
    get = StatusLed.get;
    set_all = StatusLed.set_all P;
    set_ok = led_set_ok;
    set_err = led_set_err;
    set_range = led_set_range;
  }

  pub dummy_set_ok :
      (channel : ℕ) (b : Bool) (s : ActuatorDummy.State)
      → (ActuatorDummy.set P channel b s).0 ≡ ok
      → ActuatorDummy.get channel valid (ActuatorDummy.set P channel b s).1 ≡ (ok, some b)
  unfolding ActuatorDummy.set ActuatorDummy.get
  dummy_set_ok channel b s h = ground arith

  pub dummy_set_err :
      (channel k : ℕ) (b : Bool) (s : ActuatorDummy.State)
      → is_ok (ActuatorDummy.set P channel b s).0 ≡ false
      → ActuatorDummy.get k valid (ActuatorDummy.set P channel b s).1 ≡ ActuatorDummy.get k valid s
  unfolding ActuatorDummy.set ActuatorDummy.get
  dummy_set_err channel k b s h = ground arith

  pub dummy_set_range :
      (channel : ℕ) (b : Bool) (s : ActuatorDummy.State)
      → ltb channel ActuatorDummy.num_channels ≡ false
      → is_ok (ActuatorDummy.set P channel b s).0 ≡ false
  unfolding ActuatorDummy.set
  dummy_set_range channel b s h = ground arith

  -- `actuator_dummy_driver`
  abbrev pub actuator_dummy_driver : OutputDriver
  actuator_dummy_driver = record {
    State = ActuatorDummy.State;
    num_channels = ActuatorDummy.num_channels;
    set = ActuatorDummy.set P;
    get = ActuatorDummy.get;
    set_all = ActuatorDummy.set_all P;
    set_ok = dummy_set_ok;
    set_err = dummy_set_err;
    set_range = dummy_set_range;
  }

  -- The pin of the LED carries the level that shows the cached state.
  abbrev pub IsShown : StatusLed.State → Type 0
  IsShown s =
      s.is_initialized ≡ true
      → driven P s.gpio_num s.trace ≡ some (level_of s.active_low s.channel_state)

  abbrev pub run : List LedCall → StatusLed.State → StatusLed.State
  run [] s = s
  run (start cfg ∷ cs) s = run cs (StatusLed.init P cfg s).1
  run (put channel b ∷ cs) s = run cs (StatusLed.set P channel b s).1
  run (put_all mask ∷ cs) s = run cs (StatusLed.set_all P mask s).1
  run (stop ∷ cs) s = run cs (StatusLed.deinit s)

  set-IsShown :
      (channel : ℕ) (b : Bool) (s : StatusLed.State)
      → IsShown s
      → IsShown (StatusLed.set P channel b s).1
  unfolding StatusLed.set
  set-IsShown channel b s h = ground (arith, h, level-level_of s.active_low b)

  set_all-IsShown :
      (mask : ℕ) (s : StatusLed.State) → IsShown s → IsShown (StatusLed.set_all P mask s).1
  unfolding StatusLed.set_all
  set_all-IsShown mask s h = ground (arith, h, set-IsShown 0 (test_bit mask 0) s h)

  -- A pin that was just configured as an output takes a level.
  abbrev pub TakesLevel : Type 0
  TakesLevel =
      (pin level : ℕ) (t : Trace)
      → P.status (gpio (config (2 ^ pin)) ∷ t) (gpio (set_level pin level)) ≡ ok

  init-IsShown :
      (cfg : Option StatusLed.LedConfig) (s : StatusLed.State)
      → IsShown s
      → TakesLevel
      → IsShown (StatusLed.init P cfg s).1
  unfolding StatusLed.init
  init-IsShown cfg s h takes =
      let c = StatusLed.led_config cfg in
      ground (
        arith,
        h,
        level-level_of c.active_low false,
        takes c.gpio_num (StatusLed.level c.active_low false) s.trace,
      )

  -- After any calls of the driver, from a start where it holds on, the pin of a status LED that is
  -- initialized carries the level that shows its cached state: of an LED lit by a high level, high
  -- if it is on and low if not, and the other way round for one lit by a low level. Calls may fail;
  -- a pin that was just configured takes a level.
  pub status_led-IsShown :
      (cs : List LedCall) (s : StatusLed.State) → IsShown s → TakesLevel → IsShown (run cs s)
  unfolding StatusLed.deinit
  status_led-IsShown [] s h t = h
  status_led-IsShown (start cfg ∷ cs) s h t =
      status_led-IsShown cs (StatusLed.init P cfg s).1 (init-IsShown cfg s h t) t
  status_led-IsShown (put channel b ∷ cs) s h t =
      status_led-IsShown cs (StatusLed.set P channel b s).1 (set-IsShown channel b s h) t
  status_led-IsShown (put_all mask ∷ cs) s h t =
      status_led-IsShown cs (StatusLed.set_all P mask s).1 (set_all-IsShown mask s h) t
  status_led-IsShown (stop ∷ cs) s h t =
      status_led-IsShown cs (StatusLed.deinit s) (ground (arith, h)) t
