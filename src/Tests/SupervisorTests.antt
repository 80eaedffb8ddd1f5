-- ===== src/Tests/SupervisorTests.antt =====
-- The supervisor on concrete inputs.
use fortunelabs_mainboard_l.Prelude.{◌+◌, ◌*◌, ◌≤◌, ◌<◌, ◌≡◌, true, false, [], none, arith}
use fortunelabs_mainboard_l.Prelude.Text.{codes}
use fortunelabs_mainboard_l.Supervisor.Task.{Config, State, tick_ms, task_supervisor}
use fortunelabs_mainboard_l.Supervisor.Cadence.{feeds, delayed, beats, task_supervisor-cadence}
use fortunelabs_mainboard_l.Tests.Boards.{healthy}

-- The settings of `app_main`.
abbrev watched : State
watched = record {
  wdt_timeout_ms = 10000;
  heartbeat_period_ms = 5000;
  publishes = true;
  device_id = codes "flab";
  initialized = true;
  trace = [];
}

abbrev no_period : Config
no_period = record {
  wdt_timeout_ms = 500;
  trigger_panic = true;
  heartbeat_period_ms = 0;
  publishes = false;
  device_id = none;
}

task_supervisor-cadence_example :
    let tick = tick_ms watched in
    let (since, s') = task_supervisor healthy 3 watched in
    let made = beats s'.trace in
    (feeds s'.trace ≡ 0 + 3)
    × (delayed s'.trace ≡ 0 + 3 * healthy.ticks tick)
    × (1 ≤ tick)
    × (tick * 2 ≤ 10000)
    × (tick ≤ 5000)
    × (made * 5000 ≤ 0 * 5000 + 5000 + 3 * tick)
    × (3 * tick + 0 * (5000 + tick) < made * (5000 + tick))
task_supervisor-cadence_example =
    task_supervisor-cadence healthy 2 watched (omega arith) (omega arith) (omega arith)
