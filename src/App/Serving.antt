-- ===== src/App/Serving.antt =====
-- The last steps of `app_main` (firmware/main/main.c): the transport, the sink and the supervisor.
use fortunelabs_mainboard_l.Prelude.{ℕ, ◌≡◌, refl, sym, ap, subst, ◌∙◌, true, List, some, arith}
use fortunelabs_mainboard_l.Prelude.Int.{ℤ}
use fortunelabs_mainboard_l.Prelude.Text.{codes}
use fortunelabs_mainboard_l.Platform.{ok, Trace, Platform}
use fortunelabs_mainboard_l.Queues.{QueueApi}
use fortunelabs_mainboard_l.SystemConfig.Store.{SystemConfig}
use fortunelabs_mainboard_l.SystemConfig.Loading.{IsWellFormed}
use fortunelabs_mainboard_l.LogService.Facade as Log
use fortunelabs_mainboard_l.LogService.Facade.{Writer, uart}
use fortunelabs_mainboard_l.Ota.Update.{OtaPlatform}
use fortunelabs_mainboard_l.Supervisor.Task as Supervisor
use fortunelabs_mainboard_l.Supervisor.Task.{tick_ms}
use fortunelabs_mainboard_l.Network.Manager.{Callback, returned}
use fortunelabs_mainboard_l.Network.Topics.{whole_topic, topic_of-whole}
use fortunelabs_mainboard_l.Network.Transport.{
  transport_mqtt_init, transport_of, IsConnecting, transport_mqtt_init-IsConnecting,
}
use fortunelabs_mainboard_l.App.Hardware.{BringUp, up, aborted, restarted, checked}
use fortunelabs_mainboard_l.App.BringUp.{checked-up}
use fortunelabs_mainboard_l.App.Startup.{
  Creates, wanted, spawned, and_then, Machine, ask, start_flash, start_transport, start_supervisor,
  connect_sink, spawn_tasks, start_services,
}

pub and_then-up :
    {S : Type 0} (x : BringUp × S) (k : S → BringUp × S)
    → (and_then x k).0 ≡ up
    → (x.0 ≡ up) × (and_then x k ≡ k x.1) × ((k x.1).0 ≡ up)
unfolding and_then
and_then-up (up, s) k o = (refl, refl, o)
and_then-up (aborted, s) k o = absurd (cc o)
and_then-up (restarted, s) k o = absurd (cc o)

module _ {F : Type 0} (volts_per_code : ℕ → F) (from_int : ℤ → F) (mul : F → F → F)
    (logs : QueueApi (List ℕ)) (W : Type 0) (P : Platform) where
  abbrev M : Type 0
  M = Machine volts_per_code from_int mul logs W

  -- The components that the transport, the sink and the supervisor leave, with the configuration
  -- that they were started with.
  pub record IsServing (cfg : SystemConfig) (cb : Callback W) (creates : Creates) (m m' : M)
      : Type 0 where
    pub before : Trace
    pub network : IsConnecting cfg cb (record (m.net) { trace = before }) m'.net
    pub sink : m'.log.has_sink ≡ true
    pub writer : m'.log.writer ≡ m.log.writer
    pub orig : m'.log.orig ≡ m.log.orig
    pub topic : m'.topic ≡ whole_topic cfg.device_id (codes "/log")
    pub supervised : m'.sup.initialized ≡ true
    pub timeout : m'.sup.wdt_timeout_ms ≡ 10000
    pub feeds : tick_ms m'.sup ≡ 5000
    pub tasks : m'.tasks ≡ spawned creates wanted m.tasks
    pub hw : m'.hw ≡ m.hw

  start_transport-up :
      (cb : Callback W) (cfg : SystemConfig) (m : M)
      → let (o, m') = start_transport volts_per_code from_int mul logs W P cb cfg m in
        let (r, s) =
          transport_mqtt_init P (some (transport_of cfg cb)) (record (m.net) { trace = m.trace }) in
        o ≡ up → (r ≡ returned ok) × (m' ≡ record m { net = s; trace = s.trace })
  unfolding start_transport checked
  start_transport-up cb cfg m o = ground (arith, o)

  start_supervisor-ok :
      (cfg : SystemConfig) (m : M)
      → let (r, m') = start_supervisor volts_per_code from_int mul logs W P cfg m in
        r ≡ ok
        → (m'.sup.initialized ≡ true)
          × (m'.sup.wdt_timeout_ms ≡ 10000)
          × (m'.sup.heartbeat_period_ms ≡ 5000)
  unfolding start_supervisor Supervisor.init
  start_supervisor-ok cfg m o = ground (arith, o)

  connect_sink-ok :
      (cfg : SystemConfig) (m : M)
      → let (r, m') = connect_sink volts_per_code from_int mul logs W cfg m in
        r ≡ ok → (m'.log ≡ record (m.log) { has_sink = true })
  unfolding connect_sink Log.register_sink
  connect_sink-ok cfg m o = ground (arith, o)

  pub start_flash-same :
      (m : M)
      → let m' = (start_flash volts_per_code from_int mul logs W P m).1 in
        m' ≡ record m { trace = m'.trace }
  unfolding start_flash checked ask
  start_flash-same m = ground arith

  tick_ms-half :
      (s : Supervisor.State)
      → s.wdt_timeout_ms ≡ 10000
      → s.heartbeat_period_ms ≡ 5000
      → tick_ms s ≡ 5000
  unfolding tick_ms
  tick_ms-half s t h = ground (arith, t, h)

  pub start_services-IsServing :
      (PO : OtaPlatform) (creates : Creates) (cb : Callback W) (cfg : SystemConfig) (m : M)
      → let (o, m') = start_services volts_per_code from_int mul logs W P PO creates cb cfg m in
        IsWellFormed cfg → o ≡ up → IsServing cfg cb creates m m'
  unfolding start_services start_supervisor connect_sink spawn_tasks
  start_services-IsServing PO creates cb cfg m w o =
      let x1 = start_transport volts_per_code from_int mul logs W P cb cfg m in
      let (o1, e1, u1) = and_then-up x1 _ o in
      let (r, m1_eq) = start_transport-up cb cfg m o1 in
      let x2 = connect_sink volts_per_code from_int mul logs W cfg x1.1 in
      let (o2, e2, u2) = checked-up x2 _ u1 in
      let x3 = start_supervisor volts_per_code from_int mul logs W P cfg x2.1 in
      let (o3, e3, u3) = checked-up x3 _ u2 in
      let log_eq = connect_sink-ok cfg x1.1 o2 in
      let (ready, timeout, period) = start_supervisor-ok cfg x2.1 o3 in
      let served : IsServing cfg cb creates m
          (spawn_tasks volts_per_code from_int mul logs W creates x3.1) =
        record {
          before = m.trace;
          network =
              subst (IsConnecting cfg cb (record (m.net) { trace = m.trace }))
                (sym (ap (λ (x : M). x.net) m1_eq))
                (transport_mqtt_init-IsConnecting P cfg cb (record (m.net) { trace = m.trace }) w
                  r);
          sink = ap (λ (l : Log.State logs). l.has_sink) log_eq;
          writer =
              ap (λ (l : Log.State logs). l.writer) log_eq ∙ ap (λ (x : M). x.log.writer) m1_eq;
          orig = ap (λ (l : Log.State logs). l.orig) log_eq ∙ ap (λ (x : M). x.log.orig) m1_eq;
          topic = topic_of-whole cfg.device_id (codes "/log") (w.id) (omega arith);
          supervised = ready;
          timeout = timeout;
          feeds = tick_ms-half x3.1.sup timeout period;
          tasks = ap (λ (x : M). spawned creates wanted x.tasks) m1_eq;
          hw = ap (λ (x : M). x.hw) m1_eq;
        } in
      subst (λ (x : BringUp × M). IsServing cfg cb creates m x.1) (sym (e1 ∙ e2 ∙ e3)) served
