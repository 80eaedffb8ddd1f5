-- ===== src/Tests/BoardTests.antt =====
-- The wait for the network, the simulated sensor and the heartbeat on concrete inputs.
use fortunelabs_mainboard_l.Prelude.{
  ℕ, ◌+◌, ◌-◌, ◌≡◌, refl, Bool, true, false, [], ◌∷◌, none, some, leb, arith, if◌then◌else◌,
}
use fortunelabs_mainboard_l.Platform.{valid}
use fortunelabs_mainboard_l.Ota.Update.{wait_ms, ota_perform}
use fortunelabs_mainboard_l.Outputs.StatusLed
use fortunelabs_mainboard_l.Outputs.Laws.{status_led_driver}
use fortunelabs_mainboard_l.App.OtaTrigger.{
  Waited, IsWaited, settle_ms, test_config, ota_test_task, ota_test_task-ends,
}
use fortunelabs_mainboard_l.App.Heartbeat.{Task, heartbeat, task_status, flashes}
use fortunelabs_mainboard_l.SensorDummy.{
  FloatApi, FloatLaws, State, dummy_init, dummy_read, sweep, readings,
}
use fortunelabs_mainboard_l.Tests.Boards.{healthy}
use fortunelabs_mainboard_l.Tests.OtaTests.{server}
use fortunelabs_mainboard_l.Tests.OutputTests.{dark}

-- The network comes up at the fourth question.
abbrev comes_up : ℕ → Bool
comes_up k = leb 3 k

ota_test_task-ends_example :
    (w : Waited) × (n : ℕ) × IsWaited comes_up (wait_ms settle_ms ∷ []) w n
    × (ota_test_task server 61 5 comes_up []
        ≡ some (
            if comes_up (n + 1)
            then ota_perform server 5 valid test_config w.trace
            else (none, w.trace)))
ota_test_task-ends_example = ota_test_task-ends server 61 5 comes_up [] (omega arith)

-- Voltages in tenths of a volt.
abbrev pub tenths : FloatApi ℕ
tenths = record {
  add = λ a b. a + b;
  sub = λ a b. a - b;
  le = leb;
  voltage_min = 0;
  voltage_max = 33;
  step_size = 1;
}

tenths-FloatLaws : FloatLaws tenths
tenths-FloatLaws = record {
  range = refl;
  le_refl = λ x. ground arith;
  le_total = λ x y h. ground (arith, h);
  le_trans = λ x y z h k. ground (arith, h, k);
  step_up = λ x. ground arith;
  step_down = λ x. ground arith;
}

abbrev unstarted : State ℕ
unstarted = record {
  current_voltage = 99;
  direction_up = false;
  is_initialized = false;
  trace = [];
}

three_readings : readings tenths healthy 3 (dummy_init tenths unstarted).1 [] ≡ 3 ∷ 2 ∷ 1 ∷ []
unfolding readings dummy_read sweep dummy_init
three_readings = refl

abbrev led_task : Task (status_led_driver healthy) (healthy.ticks)
led_task = record { led = dark; last_wake = 0; waits = [] }

two_flashes :
    (task_status (status_led_driver healthy) (healthy.ticks) 2 led_task).led.trace
    ≡ flashes 2 4 true dark.trace
unfolding task_status heartbeat StatusLed.set mathlib.Core.Bool.xor
two_flashes = refl
