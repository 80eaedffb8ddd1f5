-- ===== src/Tests/DriverTests.antt =====
-- The sensor task over the simulated potentiometer.
use fortunelabs_mainboard_l.Prelude.{
  ℕ, ◌≡◌, refl, Bool, true, false, List, [], ◌∷◌, ◌++◌, none, ltb, arith,
}
use fortunelabs_mainboard_l.Platform.{ok}
use fortunelabs_mainboard_l.Queues.{QueueApi}
use fortunelabs_mainboard_l.SensorDummy.{Reading, State, dummy_init, dummy_read, sweep}
use fortunelabs_mainboard_l.SensorTask.Sampling as Sampling
use fortunelabs_mainboard_l.SensorTask.Edges.{edges}
use fortunelabs_mainboard_l.SensorTask.Drivers.{SensorDriver, sensor_dummy_driver}
use fortunelabs_mainboard_l.SensorTask.Rounds.{reads, rounds, rounds-driven}
use fortunelabs_mainboard_l.Tests.Boards.{healthy}
use fortunelabs_mainboard_l.Tests.BoardTests.{tenths}
use fortunelabs_mainboard_l.Tests.QueueTests.{list_queue}

abbrev driver : SensorDriver (Reading ℕ)
driver = sensor_dummy_driver tenths healthy

abbrev rising : State ℕ
rising = record { current_voltage = 24; direction_up = true; is_initialized = true; trace = [] }

abbrev over : Reading ℕ → Bool
over r = ltb 25 r.value

abbrev volt_text : Reading ℕ → List ℕ
volt_text r = r.value ∷ []

abbrev commands : QueueApi Bool
commands = list_queue Bool 5

abbrev display : QueueApi Sampling.DisplayMsg
display = list_queue Sampling.DisplayMsg 10

abbrev dark : Sampling.State commands over volt_text display
dark = record { last_led_state = false; mailbox = none; messages = []; actuator = [] }

rounds-driven_example :
    let d1 = (driver.init rising).1 in
    let (t', d') = rounds driver commands over volt_text display 3 (dark, d1) in
    let asked = edges over false (reads driver 3 d1) in
    ((rounds driver commands over volt_text display 3 (dark, driver.deinit d1)).0 ≡ dark)
    × (driver.init d' ≡ (ok, d'))
    × (t'.actuator ≡ [] ++ asked)
unfolding dummy_init dummy_read sweep reads mathlib.Core.Bool.xor
rounds-driven_example =
    rounds-driven driver commands over volt_text display 3 dark rising refl (omega arith)
