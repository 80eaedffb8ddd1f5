-- ===== src/App/Startup.antt =====
-- firmware/main/main.c: `app_main` from its first step to its last. The components share one trace of
-- calls, which each step takes up and hands on; the OTA calls have their own.
use fortunelabs_mainboard_l.Prelude.{
  ℕ, Bool, true, false, List, [], ◌∷◌, Option, some, if◌then◌else◌,
}
use fortunelabs_mainboard_l.Prelude.Int.{ℤ}
use fortunelabs_mainboard_l.Prelude.Text.{codes}
use fortunelabs_mainboard_l.Platform.{
  Err, err, nvs_no_free_pages, nvs_new_version_found, valid, Call, Trace, Platform, flash_init,
  flash_erase,
}
use fortunelabs_mainboard_l.Queues.{QueueApi}
use fortunelabs_mainboard_l.SystemConfig.Store as Config
use fortunelabs_mainboard_l.SystemConfig.Store.{SystemConfig, Defaults}
use fortunelabs_mainboard_l.LogService.Facade as Log
use fortunelabs_mainboard_l.Ota.Update as Ota
use fortunelabs_mainboard_l.Ota.Update.{OtaPlatform, pending_verify, mark_valid}
use fortunelabs_mainboard_l.Supervisor.Task as Supervisor
use fortunelabs_mainboard_l.Network.Manager as Network
use fortunelabs_mainboard_l.Network.Manager.{Callback, Outcome, returned, aborted}
use fortunelabs_mainboard_l.Network.Transport.{transport_mqtt_init, transport_of}
use fortunelabs_mainboard_l.App.Hardware as Hardware
use fortunelabs_mainboard_l.App.Hardware.{BringUp, up, checked, bring_up}
use fortunelabs_mainboard_l.App.Boot.{with_fallback, topic_log}

-- What a call of `xTaskCreate` in `app_main` asks for.
pub record TaskSpec : Type 0 where
  pub name : List ℕ
  pub stack : ℕ
  pub priority : ℕ

abbrev task_of : List ℕ → ℕ → ℕ → TaskSpec
task_of name stack priority = record { name = name; stack = stack; priority = priority }

-- The tasks that step [10] asks for, in order.
abbrev pub wanted : List TaskSpec
wanted =
    task_of (codes "task_ota_test") 8192 3
    ∷ task_of (codes "task_sys_sup") 3072 6
    ∷ task_of (codes "task_sensor") 3072 5
    ∷ task_of (codes "task_actuator") 2048 5
    ∷ task_of (codes "task_display") 3072 4
    ∷ task_of (codes "task_status") 2048 2
    ∷ []

-- What `xTaskCreate` answers: whether it creates a task, with those that were created before, the
-- newest first.
abbrev pub Creates : Type 0
Creates = List TaskSpec → TaskSpec → Bool

-- The tasks created, the newest first: each call is made whatever those before it answered.
abbrev pub spawned : Creates → List TaskSpec → List TaskSpec → List TaskSpec
spawned creates [] before = before
spawned creates (spec ∷ more) before =
    spawned creates more (if creates before spec then spec ∷ before else before)

-- `ret == ESP_ERR_NVS_NO_FREE_PAGES || ret == ESP_ERR_NVS_NEW_VERSION_FOUND`
abbrev pub wants_erase : Err → Bool
wants_erase (err nvs_no_free_pages) = true
wants_erase (err nvs_new_version_found) = true
wants_erase _ = false

abbrev pub supervisor_config : SystemConfig → Supervisor.Config
supervisor_config cfg = record {
  wdt_timeout_ms = 10000;
  trigger_panic = true;
  heartbeat_period_ms = 5000;
  publishes = true;
  device_id = some cfg.device_id;
}

-- What the queues and tasks of FreeRTOS give, the compile-time defaults, and the bytes of `sys_cfg`
-- before it is filled.
pub record Given (logs : QueueApi (List ℕ)) : Type 0 where
  pub log_queue : Option logs.Queue
  pub log_task : Bool
  pub queues : Bool
  pub creates : Creates
  pub defaults : Defaults
  pub sys_cfg : SystemConfig

-- `must x`: a last step under `ESP_ERROR_CHECK`.
abbrev pub must : {S : Type 0} → Err × S → BringUp × S
must x = checked x (λ s. (up, s))

-- Steps after steps that all succeeded.
unfoldable pub and_then : {S : Type 0} → BringUp × S → (S → BringUp × S) → BringUp × S
and_then (up, s) k = k s
and_then (Hardware.aborted, s) k = (Hardware.aborted, s)
and_then (Hardware.restarted, s) k = (Hardware.restarted, s)

module _ {F : Type 0} (volts_per_code : ℕ → F) (from_int : ℤ → F) (mul : F → F → F) where
  module _ (logs : QueueApi (List ℕ)) (W : Type 0) where
    -- The statics of the components, the tasks created and the calls made.
    pub record Machine : Type 0 where
      pub log : Log.State logs
      pub store : Config.State
      pub ota : Ota.Trace
      pub hw : Hardware.Hardware volts_per_code from_int mul
      pub net : Network.State W
      pub sup : Supervisor.State
      pub topic : List ℕ
      pub tasks : List TaskSpec
      pub trace : Trace

    module _ (P : Platform) where
      unfoldable pub ask : Call → Machine → Err × Machine
      ask c m = (P.status m.trace c, record m { trace = c ∷ m.trace })

      -- Step [1]
      unfoldable pub start_flash : Machine → BringUp × Machine
      start_flash m =
          let (r, m1) = ask flash_init m in
          if wants_erase r
          then checked (ask flash_erase m1) (λ m2. must (ask flash_init m2))
          else must (r, m1)

      -- `system_config_init`
      unfoldable pub start_store : Machine → Err × Machine
      start_store m =
          let (r, s) = Config.init P (record (m.store) { trace = m.trace }) in
          (r, record m { store = s; trace = s.trace })

      -- Steps [5] to [7]
      unfoldable pub start_hardware : Bool → Machine → BringUp × Machine
      start_hardware queues m =
          let before = record (m.hw) { sys = record (m.hw.sys) { trace = m.trace } } in
          let (r, h) = bring_up volts_per_code from_int mul P queues before in
          (r, record m { hw = h; trace = h.sys.trace })

      -- `transport_mqtt_driver.init`
      unfoldable pub start_transport : Callback W → SystemConfig → Machine → BringUp × Machine
      start_transport cb cfg m =
          let before = record (m.net) { trace = m.trace } in
          let (o, s) = transport_mqtt_init P (some (transport_of cfg cb)) before in
          let m1 = record m { net = s; trace = s.trace } in
          elim o [ aborted ↦ (Hardware.aborted, m1) | returned r ↦ must (r, m1) ]

      -- `system_supervisor_init`
      unfoldable pub start_supervisor : SystemConfig → Machine → Err × Machine
      start_supervisor cfg m =
          let (r, s) =
            Supervisor.init P (some (supervisor_config cfg)) (record (m.sup) { trace = m.trace }) in
          (r, record m { sup = s; trace = s.trace })

    -- `system_log_init`, with ESP_LOG_INFO.
    unfoldable pub start_log : Option logs.Queue → Bool → Machine → Err × Machine
    start_log queue task m =
        let (r, s) = Log.init logs 3 queue task m.log in (r, record m { log = s })

    -- `s_topic_log`, and `system_log_register_sink` of `app_log_sink`.
    unfoldable pub connect_sink : SystemConfig → Machine → Err × Machine
    connect_sink cfg m =
        let (r, s) = Log.register_sink logs true m.log in
        (r, record m { log = s; topic = topic_log cfg })

    -- Step [10]
    unfoldable pub spawn_tasks : Creates → Machine → Machine
    spawn_tasks creates m = record m { tasks = spawned creates wanted m.tasks }

    module _ (P : Platform) (PO : OtaPlatform) where
      -- Step [4]; the result of `system_ota_mark_valid` is not read.
      unfoldable pub confirm_image : Machine → Machine
      confirm_image m =
          let (pending, t) = pending_verify PO m.ota in
          if pending then record m { ota = (mark_valid PO t).1 } else record m { ota = t }

      -- `system_config_load` under `ESP_ERROR_CHECK`, the fallback, and what follows with the
      -- configuration.
      unfoldable pub with_config :
          Given logs → (SystemConfig → Machine → BringUp × Machine) → Machine → BringUp × Machine
      with_config g k m =
          let (r, cfg, s) =
            Config.load P g.defaults valid g.sys_cfg (record (m.store) { trace = m.trace }) in
          checked (r, record m { store = s; trace = s.trace }) (k (with_fallback cfg))

      -- The steps from [8] on.
      unfoldable pub start_services :
          Creates → Callback W → SystemConfig → Machine → BringUp × Machine
      start_services creates cb cfg m = and_then (start_transport P cb cfg m) (λ m1.
          checked (connect_sink cfg m1)
            (λ m2. checked (start_supervisor P cfg m2) (λ m3. (up, spawn_tasks creates m3))))

      -- The steps from [4] on.
      unfoldable pub start_board :
          Given logs → Callback W → SystemConfig → Machine → BringUp × Machine
      start_board g cb cfg m =
          and_then (start_hardware P g.queues (confirm_image m)) (start_services g.creates cb cfg)

      -- `app_main`
      unfoldable pub app_main : Given logs → Callback W → Machine → BringUp × Machine
      app_main g cb m = and_then (start_flash P m) (λ m1.
          checked (start_log g.log_queue g.log_task m1)
            (λ m2. checked (start_store P m2) (with_config g (start_board g cb))))
