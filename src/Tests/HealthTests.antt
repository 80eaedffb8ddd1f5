-- ===== src/Tests/HealthTests.antt =====
-- Heartbeats on their way to the broker, with the settings of `app_main`.
use fortunelabs_mainboard_l.Prelude.{
  ◌+◌, ◌*◌, ◌≤◌, ◌<◌, ◌≡◌, refl, true, false, [], ◌++◌, some, length, arith,
}
use fortunelabs_mainboard_l.Prelude.Text.{codes}
use fortunelabs_mainboard_l.Supervisor.Task.{
  Config, State, init, start_watchdog, tick_ms, task_supervisor,
}
use fortunelabs_mainboard_l.Supervisor.Cadence.{delayed}
use fortunelabs_mainboard_l.Supervisor.Heartbeats.{published}
use fortunelabs_mainboard_l.Network.Telemetry.{sent}
use fortunelabs_mainboard_l.App.Health.{health_all, health_all-cadence}
use fortunelabs_mainboard_l.Tests.Boards.{healthy}
use fortunelabs_mainboard_l.Tests.NetworkTests.{linked}

abbrev unconfigured : State
unconfigured = record {
  wdt_timeout_ms = 0;
  heartbeat_period_ms = 0;
  publishes = false;
  device_id = [];
  initialized = false;
  trace = [];
}

abbrev settings : Config
settings = record {
  wdt_timeout_ms = 10000;
  trigger_panic = true;
  heartbeat_period_ms = 5000;
  publishes = true;
  device_id = some (codes "flab");
}

health_all-cadence_example :
    let s = (init healthy (some settings) unconfigured).1 in
    let t = (task_supervisor healthy 3 s).1.trace in
    let made = published t in
    (sent linked.topic_health (health_all healthy made linked).trace
      ≡ made ++ sent linked.topic_health linked.trace)
    × (length made * 5000 ≤ 5000 + 3 * tick_ms s)
    × (3 * tick_ms s < length made * (5000 + tick_ms s))
    × (delayed t ≡ 0 + 3 * healthy.ticks (tick_ms s))
unfolding init start_watchdog
health_all-cadence_example =
    health_all-cadence healthy settings unconfigured 2 linked refl refl refl refl (omega arith)
      (omega arith) (omega arith) refl refl
