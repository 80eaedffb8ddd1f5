-- ===== src/Tests/StartupTests.antt =====
-- `app_main` on boards where every call succeeds, and on one where no call does.
use fortunelabs_mainboard_l.Prelude.{
  ℕ, ◌≡◌, refl, Bool, not, true, false, List, [], ◌∷◌, some, if◌then◌else◌,
}
use fortunelabs_mainboard_l.Prelude.Text.{codes, eq_bytes}
use fortunelabs_mainboard_l.Platform.{ok, err, fail, null, Platform}
use fortunelabs_mainboard_l.SystemConfig.Store as Config
use fortunelabs_mainboard_l.SystemConfig.Store.{SystemConfig}
use fortunelabs_mainboard_l.Supervisor.Task as Supervisor
use fortunelabs_mainboard_l.Ota.Update.{
  OtaPlatform, mark_app_valid, state_partition, running_partition, pending_verify,
}
use fortunelabs_mainboard_l.Network.Commands.{command_cb}
use fortunelabs_mainboard_l.App.BringUp.{IsReset}
use fortunelabs_mainboard_l.Bus.Lifecycle
use fortunelabs_mainboard_l.Bus.Transfers
use fortunelabs_mainboard_l.Bus.Scan.{scan, scan_from}
use fortunelabs_mainboard_l.Ads1115.Device as Converter
use fortunelabs_mainboard_l.SensorAds1115.Adapter
use fortunelabs_mainboard_l.Outputs.StatusLed
use fortunelabs_mainboard_l.Outputs.ActuatorDummy
use fortunelabs_mainboard_l.Ssd1306.Device as Display
use fortunelabs_mainboard_l.LogService.Facade as Log
use fortunelabs_mainboard_l.LogService.Facade.{uart}
use fortunelabs_mainboard_l.Network.Manager as Network
use fortunelabs_mainboard_l.Network.Transport as Transport
use fortunelabs_mainboard_l.Bus.State.{Sys, zero_bus}
use fortunelabs_mainboard_l.App.Hardware.{
  Hardware, aborted, bring_up, start_bus, scan_bus, start_sensor, start_actuator, start_led,
  start_display, start_drivers, checked,
}
use fortunelabs_mainboard_l.App.Startup as Startup
use fortunelabs_mainboard_l.App.Startup.{
  Machine, Given, TaskSpec, Creates, wanted, spawned, app_main, start_board,
}
use fortunelabs_mainboard_l.App.Spawned.{is_up, start_board-confirms}
use fortunelabs_mainboard_l.App.Created.{names, put_accepted, board_tasks, app_main-tasks}
use fortunelabs_mainboard_l.App.Running.{IsRunning, app_main-IsRunning}
use fortunelabs_mainboard_l.Tests.Boards.{healthy}
use fortunelabs_mainboard_l.Tests.SensorTests.{volts, magnitude, times}
use fortunelabs_mainboard_l.Tests.DisplayTests.{noise}
use fortunelabs_mainboard_l.Tests.QueueTests.{lines, fresh_log}
use fortunelabs_mainboard_l.Tests.ConfigTests.{partition, partition-NvsLaws, defaults, empty, ready}
use fortunelabs_mainboard_l.Tests.NetworkTests.{actuator, unstarted}

abbrev no_sys : Sys
no_sys = record { bus = zero_bus; trace = [] }

abbrev at_reset : Hardware volts magnitude times
at_reset = record {
  sys = no_sys;
  sensor = record {
    conv = record { dev = Converter.zero_device; sys = no_sys };
    has_driver = false;
    active_channel = 0;
    active_channel_id = 0;
    active_lsb_volts = 0;
    initialized = false;
  };
  actuator = record { is_initialized = false; channel_state = false; trace = [] };
  led = record {
    is_initialized = false;
    channel_state = false;
    gpio_num = 4;
    active_low = false;
    trace = [];
  };
  display = record {
    bus = null;
    handle = 0;
    width = 128;
    height = 64;
    is_initialized = false;
    sys = no_sys;
  };
}

abbrev Mainboard : Type 0
Mainboard = Machine volts magnitude times lines (List Bool)

-- A program that has just begun.
abbrev powered : Mainboard
powered = record {
  log = fresh_log;
  store = record ready { initialized = false };
  ota = [];
  hw = at_reset;
  net = unstarted;
  sup = record {
    wdt_timeout_ms = 0;
    heartbeat_period_ms = 0;
    publishes = false;
    device_id = [];
    initialized = false;
    trace = [];
  };
  topic = [];
  tasks = [];
  trace = [];
}

abbrev given : Given lines
given = record {
  log_queue = some [];
  log_task = true;
  queues = true;
  creates = λ before spec. true;
  defaults = defaults;
  sys_cfg = empty;
}

-- The running image awaits its confirmation.
abbrev trial : OtaPlatform
trial = record { status = λ t c. ok; value = λ t c. 1; text = λ t c. []; has_display = true }

-- Nothing on the board answers.
abbrev dead : Platform
dead = record healthy { status = λ t c. err fail }

-- No memory is left for the stack of the display task.
abbrev accepts : List ℕ → Bool
accepts name = not (eq_bytes name (codes "task_display"))

abbrev refuses : Creates
refuses before spec = false

app_main-tasks_example :
    let accepting = record given { creates = λ ts spec. accepts spec.name } in
    let refusing = record given { creates = refuses } in
    let (o, m') =
      app_main volts magnitude times lines
        (List Bool)
        partition
        trial
        accepting
        (command_cb actuator)
        powered in
    (names m'.tasks ≡ (if is_up o then put_accepted accepts board_tasks [] else []))
    × ((app_main volts magnitude times lines
          (List Bool)
          partition
          trial
          refusing
          (command_cb actuator)
          powered).0
        ≡ o)
app_main-tasks_example =
    app_main-tasks volts magnitude times lines (List Bool) partition trial given
      (command_cb actuator) accepts refuses powered

start_board-confirms_example :
    (start_board volts magnitude times lines
      (List Bool)
      dead
      trial
      given
      (command_cb actuator)
      empty
      powered).1.ota
    ≡ mark_app_valid ∷ state_partition ∷ running_partition ∷ []
unfolding pending_verify
start_board-confirms_example =
    start_board-confirms volts magnitude times lines (List Bool) dead trial given
      (command_cb actuator) empty powered refl

-- The board of that example does not start.
dead_board_aborts :
    (start_board volts magnitude times lines
      (List Bool)
      dead
      trial
      given
      (command_cb actuator)
      empty
      powered).0
    ≡ aborted
unfolding start_board Startup.start_hardware Startup.confirm_image Startup.and_then bring_up
    start_bus checked Lifecycle.init
dead_board_aborts = refl

powered-IsReset : IsReset volts magnitude times partition at_reset
powered-IsReset = record { sensor = refl; actuator = refl; led = refl }

app_main-IsRunning_example :
    (cfg : SystemConfig) × IsRunning volts magnitude times lines
      (List Bool)
      partition
      noise
      cfg
      (command_cb actuator)
      given.creates
      powered
      (app_main volts magnitude times lines
        (List Bool)
        partition
        trial
        given
        (command_cb actuator)
        powered).1
unfolding app_main start_board Startup.start_flash Startup.ask Startup.start_log Log.init
    Log.init_parts Startup.start_store Config.init Startup.with_config Config.load
    Startup.start_hardware Startup.and_then Startup.start_services Startup.start_transport
    Startup.connect_sink Log.register_sink Startup.start_supervisor Supervisor.init
    Supervisor.start_watchdog Startup.confirm_image bring_up start_bus scan_bus start_sensor
    start_actuator start_led start_display start_drivers checked scan scan_from Lifecycle.init
    Lifecycle.add_device Adapter.init Converter.init Converter.reset Converter.write_register
    Converter.read_register ActuatorDummy.init StatusLed.init Display.init_hw Display.send_cmds
    Display.clear_hw Display.clear_pages Display.write_page Display.address_page Display.send_cmd
    Display.send_bytes Transfers.write Transfers.write_read Transfers.transfer_with
    Transfers.transfer_locked Transport.transport_mqtt_init Transport.transport_mqtt_init_parts
    Transport.connect Network.init Network.init_wifi Network.init_client Network.check
    Network.set_command_cb Network.start pending_verify
app_main-IsRunning_example =
    app_main-IsRunning volts magnitude times lines (List Bool) partition trial given
      (command_cb actuator) noise powered partition-NvsLaws powered-IsReset refl refl
