-- ===== src/Tests/OutputTests.antt =====
-- The output drivers and the actuator task on concrete inputs.
use fortunelabs_mainboard_l.Prelude.{◌≡◌, refl, true, false, List, [], ◌∷◌, none, some}
use fortunelabs_mainboard_l.Platform.{ok, valid, gpio, set_level}
use fortunelabs_mainboard_l.Outputs.StatusLed
use fortunelabs_mainboard_l.Outputs.ActuatorDummy
use fortunelabs_mainboard_l.Outputs.Laws.{
  LedCall, start, put, put_all, stop, IsShown, run, status_led-IsShown,
}
use fortunelabs_mainboard_l.Outputs.Contract.{driven}
use fortunelabs_mainboard_l.Tests.Boards.{healthy}

-- A dark LED on pin 4, which is lit by a low level.
abbrev pub dark : StatusLed.State
dark = record {
  is_initialized = true;
  channel_state = false;
  gpio_num = 4;
  active_low = true;
  trace = gpio (set_level 4 1) ∷ [];
}

abbrev pub actuator : ActuatorDummy.State
actuator = record { is_initialized = true; channel_state = false; trace = [] }

abbrev unused : StatusLed.State
unused = record dark { is_initialized = false; trace = [] }

unused-IsShown : IsShown healthy unused
unused-IsShown e = absurd (cc e)

abbrev led_calls : List LedCall
led_calls =
    start (some (record { gpio_num = 5; active_low = true }))
    ∷ put 0 true
    ∷ put 1 false
    ∷ put_all 2
    ∷ stop
    ∷ start none
    ∷ put 0 true
    ∷ []

status_led-IsShown_example : IsShown healthy (run healthy led_calls unused)
status_led-IsShown_example =
    status_led-IsShown healthy led_calls unused unused-IsShown (λ pin level t. refl)

led_calls_lit : driven healthy 4 (run healthy led_calls unused).trace ≡ some 1
unfolding StatusLed.init StatusLed.set StatusLed.set_all StatusLed.deinit mathlib.Core.Bool.xor
led_calls_lit = refl

lit : StatusLed.get 0 valid (StatusLed.set healthy 0 true dark).1 ≡ (ok, some true)
unfolding StatusLed.get StatusLed.set mathlib.Core.Bool.xor
lit = refl
