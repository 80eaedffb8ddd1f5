-- ===== src/App/Boot.antt =====
-- firmware/main/main.c: the way of the configuration to the network in `app_main`, the sink of remote
-- log lines, and what follows for a run of the board.
use fortunelabs_mainboard_l.Prelude.{
  ℕ, ◌+◌, ◌≤◌, ◌≡◌, refl, Bool, true, false, not, List, ◌∷◌, ◌++◌, some, arith, length,
  if◌then◌else◌, ◌==◌, Bool-cases, inl, inr,
}
use fortunelabs_mainboard_l.Prelude.Text.{codes, is_empty, eq_bytes_refl}
use fortunelabs_mainboard_l.Platform.{ok, valid, Platform}
use fortunelabs_mainboard_l.SystemConfig.Store as Config
use fortunelabs_mainboard_l.SystemConfig.Store.{
  SystemConfig, Defaults, ssid_len, pass_len, uri_len, id_len,
}
use fortunelabs_mainboard_l.SystemConfig.Nvs.{NvsLaws}
use fortunelabs_mainboard_l.SystemConfig.Loading.{IsWellFormed, load-IsWellFormed}
use fortunelabs_mainboard_l.Queues.{QueueApi}
use fortunelabs_mainboard_l.Network.Manager.{
  State, Callback, returned, is_connected, publish, when_connected, topic_of,
}
use fortunelabs_mainboard_l.Network.Board.{Board, Action, run}
use fortunelabs_mainboard_l.Network.Status.{messages}
use fortunelabs_mainboard_l.Network.Commands.{asked_by, command_cb, payloads, run-queued}
use fortunelabs_mainboard_l.Network.Telemetry.{
  sent, transmitted, numbered, rev_onto, all_spare, run-numbered,
}
use fortunelabs_mainboard_l.Network.Transport.{
  transport_mqtt_init, transport_of, IsConnecting, transport_mqtt_init-IsConnecting,
}

-- The network profile that `app_main` injects, by `strncpy` of strings that fit, if the SSID is
-- empty.
unfoldable pub with_fallback : SystemConfig → SystemConfig
with_fallback cfg =
    if is_empty cfg.wifi_ssid
    then record cfg {
      wifi_ssid = codes "FIRDAUS";
      wifi_pass = codes "Bismillah";
      broker_uri = codes "mqtt://broker.hivemq.com:1883";
    }
    else cfg

pub with_fallback-IsWellFormed :
    (cfg : SystemConfig) → IsWellFormed cfg → IsWellFormed (with_fallback cfg)
unfolding with_fallback
with_fallback-IsWellFormed cfg w = elim (Bool-cases (is_empty cfg.wifi_ssid)) [
  | inl e ↦ rw e (record {
    ssid = omega arith;
    pass = omega arith;
    uri = omega arith;
    id = w.id;
    named = w.named;
  })
  | inr e ↦ rw e w
]

-- After the fallback there is a network to join.
pub with_fallback-named : (cfg : SystemConfig) → is_empty (with_fallback cfg).wifi_ssid ≡ false
unfolding with_fallback
with_fallback-named cfg = elim (Bool-cases (is_empty cfg.wifi_ssid)) [
  | inl e ↦ rw e refl
  | inr e ↦ rw e e
]

-- `s_topic_log`
abbrev pub topic_log : SystemConfig → List ℕ
topic_log cfg = topic_of cfg.device_id (codes "/log")

module _ {W : Type 0} (P : Platform) where
  -- `app_log_sink`
  unfoldable pub app_log_sink : List ℕ → List ℕ → State W → State W
  app_log_sink topic line s =
      let (up, s1) = is_connected s in if not up then s1 else (publish P topic line s1).1

  -- A line reaches the client exactly if the broker is connected and the manager was started.
  pub app_log_sink-sent :
      (topic line : List ℕ) (s : State W)
      → (s.lock == 0) ≡ false
      → (s.client == 0) ≡ false
      → sent topic (app_log_sink topic line s).trace
        ≡ (if s.mqtt_connected then line ∷ sent topic s.trace else sent topic s.trace)
  unfolding app_log_sink is_connected publish when_connected
  app_log_sink-sent topic line s l c = ground (arith, l, c, eq_bytes_refl topic)

  -- If NVS behaves as documented, the configuration that `app_main` loads from a ready store,
  -- with its fallback, names a network, and it reaches the network manager uncut whenever the
  -- transport starts with it and returns ESP_OK, whatever happened between the load and the
  -- start: the callback is registered, the topics are those of the device, uncut, the health
  -- topic is not the telemetry topic, and WiFi is started after every call that sets the stack,
  -- the handlers and the client up.
  pub boot-IsConnecting :
      (defaults : Defaults) (old : SystemConfig) (store : Config.State) (cb : Callback W)
      (s : State W)
      → let cfg = with_fallback (Config.load P defaults valid old store).1 in
        let (o, s') = transport_mqtt_init P (some (transport_of cfg cb)) s in
        NvsLaws P
        → store.initialized ≡ true
        → o ≡ returned ok
        → IsConnecting cfg cb s s' × (is_empty cfg.wifi_ssid ≡ false)
  boot-IsConnecting defaults old store cb s laws i o =
      let loaded = (Config.load P defaults valid old store).1 in
      let w =
        with_fallback-IsWellFormed loaded ((load-IsWellFormed P laws defaults old store i).1) in
      (
        transport_mqtt_init-IsConnecting P (with_fallback loaded) cb s w o,
        with_fallback-named loaded,
      )

-- The board when the telemetry task begins.
abbrev pub at_boot : {W : Type 0} → State W → Board W
at_boot s = record { manager = s; tx_count = 0; ready = false }

module _ (commands : QueueApi Bool) where
  open commands use {Queue, contents, depth}

  -- From a started transport on, any run of events and calls leaves in the actuator's queue the
  -- commands among the messages of the broker, in order, behind what was there, if the queue has room
  -- for them; and it hands to the client, for the telemetry topic, the samples of the rounds that
  -- found the client connected, numbered from 0, if no other task publishes to that topic.
  pub session :
      {R : Type 0} (P : Platform) (volt_text : R → List ℕ) (cfg : SystemConfig) (s0 s : State Queue)
      (as' : List (Action R))
      → let b' = run P volt_text as' (at_boot s) in
        let asked = asked_by (payloads (messages as')) in
        IsConnecting cfg (command_cb commands) s0 s
        → length (contents s.app) + length asked ≤ depth
        → all_spare s.topic_telemetry as' ≡ true
        → (contents b'.manager.app ≡ contents s.app ++ asked)
          × (sent s.topic_telemetry b'.manager.trace
              ≡ rev_onto
                  (numbered volt_text 0
                    (transmitted as' (s.wifi_connected, s.mqtt_connected) false))
                  (sent s.topic_telemetry s.trace))
  session P volt_text cfg s0 s as' d room spare = (
    run-queued commands P volt_text as' (at_boot s) d.callback room,
    run-numbered P volt_text as' (at_boot s) d.distinct spare,
  )
