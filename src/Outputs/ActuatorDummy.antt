-- ===== src/Outputs/ActuatorDummy.antt =====
-- firmware/main/drivers/output/actuator_dummy.c: the on-board LED as an actuator.
use fortunelabs_mainboard_l.Prelude.{
  ℕ, ◌^◌, Bool, true, false, not, ◌||◌, ◌∷◌, Option, none, some, if◌then◌else◌, leb, test_bit,
}
use fortunelabs_mainboard_l.Platform.{
  Err, ok, err, fail, invalid_arg, is_ok, Pointer, is_null, Platform, Call, Trace, gpio, config,
  set_level, reset_pin,
}

abbrev pub led_gpio : ℕ
led_gpio = 2

abbrev pub num_channels : ℕ
num_channels = 1

-- The static variables of the file, and the calls made so far.
pub record State : Type 0 where
  pub is_initialized : Bool
  pub channel_state : Bool
  pub trace : Trace

-- `dummy_output_get`
unfoldable pub get : ℕ → Pointer → State → Err × Option Bool
get channel out s =
    if not s.is_initialized || is_null out
    then (err fail, none)
    else (if leb num_channels channel then (err invalid_arg, none) else (ok, some s.channel_state))

-- `dummy_output_deinit`
unfoldable pub deinit : State → State
deinit s = if not s.is_initialized then s else record {
  is_initialized = false;
  channel_state = false;
  trace = gpio (reset_pin led_gpio) ∷ s.trace;
}

module _ (P : Platform) where
  -- `dummy_output_init`, which does not read its configuration.
  unfoldable pub init : State → Err × State
  init s =
      if s.is_initialized
      then (ok, s)
      else (let setup : Call = gpio (config (2 ^ led_gpio)) in
          elim (P.status s.trace setup) [
            | err e ↦ (err e, record s { trace = setup ∷ s.trace })
            | ok ↦ (
              ok,
              record {
                is_initialized = true;
                channel_state = false;
                trace = gpio (set_level led_gpio 0) ∷ setup ∷ s.trace;
              },
            )
          ])

  -- `dummy_output_set`
  unfoldable pub set : ℕ → Bool → State → Err × State
  set channel b s =
      if not s.is_initialized
      then (err fail, s)
      else (if leb num_channels channel
          then (err invalid_arg, s)
          else (let c : Call = gpio (set_level led_gpio (if b then 1 else 0)) in
              let r = P.status s.trace c in
              (
                r,
                record s {
                  channel_state = if is_ok r then b else s.channel_state;
                  trace = c ∷ s.trace;
                },
              )))

  -- `dummy_output_set_all`
  unfoldable pub set_all : ℕ → State → Err × State
  set_all bitmask s = if not s.is_initialized then (err fail, s) else set 0 (test_bit bitmask 0) s
