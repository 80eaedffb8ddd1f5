-- ===== src/App/Running.antt =====
-- What `app_main` (firmware/main/main.c) leaves when every step succeeds.
use fortunelabs_mainboard_l.Prelude.{
  ℕ, ◌≡◌, refl, sym, ap, subst, ◌∙◌, true, false, List, Option, arith,
}
use fortunelabs_mainboard_l.Prelude.Int.{ℤ}
use fortunelabs_mainboard_l.Prelude.Text.{codes, is_empty}
use fortunelabs_mainboard_l.Platform.{ok, valid, Trace, Platform}
use fortunelabs_mainboard_l.Queues.{QueueApi}
use fortunelabs_mainboard_l.SystemConfig.Store as Config
use fortunelabs_mainboard_l.SystemConfig.Store.{SystemConfig}
use fortunelabs_mainboard_l.SystemConfig.Nvs.{NvsLaws}
use fortunelabs_mainboard_l.SystemConfig.Loading.{IsWellFormed, load-IsWellFormed}
use fortunelabs_mainboard_l.LogService.Facade.{Writer, uart}
use fortunelabs_mainboard_l.LogService.Serial.{Reaches, direct, hooked, IsWritable}
use fortunelabs_mainboard_l.LogService.Session.{init-IsWritable}
use fortunelabs_mainboard_l.Ota.Update.{OtaPlatform}
use fortunelabs_mainboard_l.Supervisor.Task.{tick_ms}
use fortunelabs_mainboard_l.Network.Manager.{Callback, returned}
use fortunelabs_mainboard_l.Network.Manager as Network
use fortunelabs_mainboard_l.Network.Topics.{whole_topic}
use fortunelabs_mainboard_l.Network.Transport.{IsConnecting}
use fortunelabs_mainboard_l.Ssd1306.Panel.{Panel}
use fortunelabs_mainboard_l.App.Hardware.{BringUp, up}
use fortunelabs_mainboard_l.App.BringUp.{checked-up, IsReset, IsUp, bring_up-IsUp}
use fortunelabs_mainboard_l.App.Boot.{
  with_fallback, with_fallback-IsWellFormed, with_fallback-named,
}
use fortunelabs_mainboard_l.App.Startup.{
  Creates, wanted, spawned, Given, Machine, start_flash, start_store, start_hardware, start_log,
  confirm_image, with_config, start_services, start_board, app_main,
}
use fortunelabs_mainboard_l.App.Created.{names, board_tasks}
use fortunelabs_mainboard_l.App.Serving.{
  and_then-up, IsServing, start_flash-same, start_services-IsServing,
}

Reaches-same :
    {w w' : Writer} {o o' : Option Writer} → w' ≡ w → o' ≡ o → Reaches w o → Reaches w' o'
Reaches-same e f (direct d) = direct (e ∙ d)
Reaches-same e f (hooked d h) = hooked (e ∙ d) (f ∙ h)

module _ {F : Type 0} (volts_per_code : ℕ → F) (from_int : ℤ → F) (mul : F → F → F)
    (logs : QueueApi (List ℕ)) (W : Type 0) (P : Platform) where
  abbrev M : Type 0
  M = Machine volts_per_code from_int mul logs W

  start_store-ok :
      (m : M)
      → let (r, m') = start_store volts_per_code from_int mul logs W P m in
        r ≡ ok → m'.store.initialized ≡ true
  unfolding start_store Config.init
  start_store-ok m o = ground (arith, o)

  -- A board that runs: it is configured with a network to join, every driver is started, the manager
  -- holds the configuration and is set up to connect, log lines go to the UART and to the sink with
  -- the topic of the device, the feed interval of the supervisor is half of its timeout, and step [10] was taken.
  pub record IsRunning (first : Panel) (cfg : SystemConfig) (cb : Callback W) (creates : Creates)
      (m m' : M) : Type 0 where
    pub well_formed : IsWellFormed cfg
    pub named : is_empty cfg.wifi_ssid ≡ false
    pub hardware : IsUp volts_per_code from_int mul P first m'.hw
    pub before : Trace
    pub network : IsConnecting cfg cb (record (m.net) { trace = before }) m'.net
    pub writable : IsWritable logs m'.log
    pub sink : m'.log.has_sink ≡ true
    pub topic : m'.topic ≡ whole_topic cfg.device_id (codes "/log")
    pub supervised : m'.sup.initialized ≡ true
    pub timeout : m'.sup.wdt_timeout_ms ≡ 10000
    pub feeds : tick_ms m'.sup ≡ 5000
    pub asked : names wanted ≡ board_tasks
    pub tasks : m'.tasks ≡ spawned creates wanted m.tasks

  module _ (PO : OtaPlatform) (g : Given logs) (cb : Callback W) where
    abbrev confirm : M → M
    confirm = confirm_image volts_per_code from_int mul logs W P PO

    abbrev hardware_after : M → M
    hardware_after m = (start_hardware volts_per_code from_int mul logs W P g.queues (confirm m)).1

    confirm-same : (m : M) → confirm m ≡ record m { ota = (confirm m).ota }
    unfolding confirm_image
    confirm-same m = ground arith

    start_board-up :
        (first : Panel) (cfg : SystemConfig) (m : M)
        → let (o, m') = start_board volts_per_code from_int mul logs W P PO g cb cfg m in
          IsReset volts_per_code from_int mul P m.hw
          → IsWellFormed cfg
          → o ≡ up
          → IsUp volts_per_code from_int mul P first m'.hw
            × IsServing volts_per_code from_int mul logs W P cfg cb g.creates (hardware_after m) m'
    unfolding start_board start_hardware
    start_board-up first cfg m z w o =
        let m0 = confirm m in
        let before = record (m0.hw) { sys = record (m0.hw.sys) { trace = m0.trace } } in
        let x1 = start_hardware volts_per_code from_int mul logs W P g.queues m0 in
        let x2 = start_services volts_per_code from_int mul logs W P PO g.creates cb cfg x1.1 in
        let (o1, e1, u1) = and_then-up x1 _ o in
        let hw_eq : m0.hw ≡ m.hw = ap (λ (x : M). x.hw) (confirm-same m) in
        let zero = subst (IsReset volts_per_code from_int mul P) (sym hw_eq) z in
        let (made, on) =
          bring_up-IsUp volts_per_code from_int mul P first g.queues before
            (record { sensor = zero.sensor; actuator = zero.actuator; led = zero.led }) o1 in
        let served =
          start_services-IsServing volts_per_code from_int mul logs W P PO g.creates cb cfg x1.1 w
            u1 in
        subst
          (λ (x : BringUp × M).
            IsUp volts_per_code from_int mul P first x.1.hw
            × IsServing volts_per_code from_int mul logs W P cfg cb g.creates x1.1 x.1)
          (sym e1) (subst (IsUp volts_per_code from_int mul P first) (sym (served.hw)) on, served)

    start_board-IsRunning :
        (first : Panel) (cfg : SystemConfig) (m m1 : M)
        → let (o, m') = start_board volts_per_code from_int mul logs W P PO g cb cfg m1 in
          (m1.net ≡ m.net)
          → (m1.hw ≡ m.hw)
          → (m1.tasks ≡ m.tasks)
          → IsWritable logs m1.log
          → IsReset volts_per_code from_int mul P m.hw
          → IsWellFormed cfg
          → is_empty cfg.wifi_ssid ≡ false
          → o ≡ up
          → IsRunning first cfg cb g.creates m m'
    unfolding start_hardware
    start_board-IsRunning first cfg m m1 net hw tasks wr z w named o =
        let (on, served) =
          start_board-up first cfg m1 (subst (IsReset volts_per_code from_int mul P) (sym hw) z) w
            o in
        let same = confirm-same m1 in
        record {
          well_formed = w;
          named = named;
          hardware = on;
          before = served.before;
          network =
              subst
                (λ (n : Network.State W).
                  IsConnecting cfg cb (record n { trace = served.before })
                    (start_board volts_per_code from_int mul logs W P PO g cb cfg m1).1.net)
                (ap (λ (x : M). x.net) same ∙ net) (served.network);
          writable =
              Reaches-same (served.writer ∙ ap (λ (x : M). x.log.writer) same)
                (served.orig ∙ ap (λ (x : M). x.log.orig) same) wr;
          sink = served.sink;
          topic = served.topic;
          supervised = served.supervised;
          timeout = served.timeout;
          feeds = served.feeds;
          asked = refl;
          tasks =
              served.tasks
              ∙ ap (λ (x : M). spawned g.creates wanted x.tasks) same
              ∙ ap (spawned g.creates wanted) tasks;
        }

    -- If `app_main` ends without an abort or a restart, the board runs with some configuration: that
    -- is well formed and names a network, every driver is started, the network manager holds the
    -- configuration uncut and is set up to connect, logging ends at the UART and has its sink, whose
    -- topic is the device's and uncut, the supervisor is set to a feed interval of 5 s and a timeout
    -- of 10 s, and the tasks are those of the six that `xTaskCreate` created. NVS behaves as documented, and the program has just started: its drivers are not
    -- initialized and esp_log writes to the UART.
    pub app_main-IsRunning :
        (first : Panel) (m : M)
        → let (o, m') = app_main volts_per_code from_int mul logs W P PO g cb m in
          NvsLaws P
          → IsReset volts_per_code from_int mul P m.hw
          → m.log.writer ≡ uart
          → o ≡ up
          → (cfg : SystemConfig) × IsRunning first cfg cb g.creates m m'
    unfolding app_main start_log start_store with_config
    app_main-IsRunning first m laws z wr o =
        let x1 = start_flash volts_per_code from_int mul logs W P m in
        let x2 = start_log volts_per_code from_int mul logs W g.log_queue g.log_task x1.1 in
        let x3 = start_store volts_per_code from_int mul logs W P x2.1 in
        let (o1, e1, u1) = and_then-up x1 _ o in
        let (o2, e2, u2) = checked-up x2 _ u1 in
        let (o3, e3, u3) = checked-up x3 _ u2 in
        let same = start_flash-same volts_per_code from_int mul logs W P m in
        let store = record (x3.1.store) { trace = x3.1.trace } in
        let ready : store.initialized ≡ true = start_store-ok x2.1 o3 in
        let x4 = Config.load P g.defaults valid g.sys_cfg store in
        let (r, w) = load-IsWellFormed P laws g.defaults g.sys_cfg store ready in
        let cfg = with_fallback x4.1 in
        let m4 : M = record (x3.1) { store = x4.2; trace = x4.2.trace } in
        let (o4, e4, u4) =
          checked-up (x4.0, m4) (start_board volts_per_code from_int mul logs W P PO g cb cfg) u3 in
        let hooked_up =
          init-IsWritable logs 3 g.log_queue g.log_task x1.1.log
            (ap (λ (x : M). x.log.writer) same ∙ wr) in
        let running =
          start_board-IsRunning first cfg m m4 (ap (λ (x : M). x.net) same)
            (ap (λ (x : M). x.hw) same) (ap (λ (x : M). x.tasks) same) hooked_up z
            (with_fallback-IsWellFormed x4.1 w) (with_fallback-named x4.1) u4 in
        (
          cfg,
          subst (λ (x : BringUp × M). IsRunning first cfg cb g.creates m x.1)
              (sym (e1 ∙ e2 ∙ e3 ∙ e4)) running,
        )
