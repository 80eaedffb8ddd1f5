-- ===== src/Network/Transport.antt =====
-- firmware/main/drivers/transport/transport_mqtt.c: the transport of
-- firmware/main/hal/transport_driver.h over the network manager.
use fortunelabs_mainboard_l.Prelude.{
  ℕ, ◌≡◌, sym, ap, ◌∙◌, Bool, false, List, ◌∷◌, Option, none, some, arith, ◌==◌,
}
use fortunelabs_mainboard_l.Prelude.Text.{codes, eq_bytes, truncate, truncate_short}
use fortunelabs_mainboard_l.Platform.{
  Err, ok, err, invalid_arg, Platform, net, wifi_start, create_telemetry_task,
}
use fortunelabs_mainboard_l.SystemConfig.Store.{
  SystemConfig, ssid_len, pass_len, uri_len, id_len, text_or_empty,
}
use fortunelabs_mainboard_l.SystemConfig.Loading.{IsWellFormed}
use fortunelabs_mainboard_l.Network.Manager
use fortunelabs_mainboard_l.Network.Manager.{
  State, Callback, Outcome, returned, aborted, log_call, check, set_command_cb, start, topic_of,
  publish, subscribe, is_connected,
}
use fortunelabs_mainboard_l.Network.Starting.{init-IsStarted, start_calls}
use fortunelabs_mainboard_l.Network.Topics.{whole_topic, topic_of-whole, topic_of-distinct}

-- `transport_mqtt_config_t`; NULL is `none`.
pub record Credentials : Type 0 where
  pub wifi_ssid : Option (List ℕ)
  pub wifi_pass : Option (List ℕ)

-- `transport_config_t`
pub record TransportConfig (W : Type 0) : Type 0 where
  pub broker_uri : Option (List ℕ)
  pub device_id : Option (List ℕ)
  pub cmd_cb : Option (Callback W)
  pub extra : Option Credentials

-- `transport_driver_t`
pub record TransportDriver (W : Type 0) : Type 1 where
  pub init : Option (TransportConfig W) → State W → Outcome × State W
  pub publish : List ℕ → List ℕ → State W → Err × State W
  pub subscribe : List ℕ → State W → Err × State W
  pub is_connected : State W → Bool × State W
  pub deinit : State W → State W

-- The configuration that `transport_mqtt_init` assembles, by `strlcpy` into zeroed buffers.
abbrev pub assembled : List ℕ → List ℕ → Credentials → SystemConfig
assembled uri id ext = record {
  wifi_ssid = truncate ssid_len (text_or_empty ext.wifi_ssid);
  wifi_pass = truncate pass_len (text_or_empty ext.wifi_pass);
  broker_uri = truncate uri_len uri;
  device_id = truncate id_len id;
}

module _ {W : Type 0} (P : Platform) where
  -- The start after the checks of the arguments.
  unfoldable pub connect : Option (Callback W) → SystemConfig → State W → Outcome × State W
  connect cb cfg s =
      let (o, s1) = Manager.init P (some cfg) (set_command_cb cb s) in
      elim o [
        | aborted ↦ (aborted, s1)
        | returned r ↦ elim r [ ok ↦ start P s1 | err c ↦ (returned (err c), s1) ]
      ]

  unfoldable pub transport_mqtt_init_parts :
      Option (List ℕ)
      → Option (List ℕ)
      → Option (Callback W)
      → Option Credentials
      → State W
      → Outcome × State W
  transport_mqtt_init_parts (some uri) (some id) cb (some ext) s =
      connect cb (assembled uri id ext) s
  transport_mqtt_init_parts _ _ cb _ s = (returned (err invalid_arg), s)

  -- `transport_mqtt_init`
  unfoldable pub transport_mqtt_init : Option (TransportConfig W) → State W → Outcome × State W
  transport_mqtt_init none s = (returned (err invalid_arg), s)
  transport_mqtt_init (some cfg) s =
      transport_mqtt_init_parts cfg.broker_uri cfg.device_id cfg.cmd_cb cfg.extra s

  -- `transport_mqtt_driver`; its `deinit` does nothing.
  abbrev pub transport_mqtt_driver : TransportDriver W
  transport_mqtt_driver = record {
    init = transport_mqtt_init;
    publish = publish P;
    subscribe = subscribe P;
    is_connected = is_connected;
    deinit = λ s. s;
  }

-- The configuration that `app_main` hands to the transport.
abbrev pub transport_of : {W : Type 0} → SystemConfig → Callback W → TransportConfig W
transport_of cfg cb = record {
  broker_uri = some cfg.broker_uri;
  device_id = some cfg.device_id;
  cmd_cb = some cb;
  extra = some (record { wifi_ssid = some cfg.wifi_ssid; wifi_pass = some cfg.wifi_pass });
}

assembled-same :
    (cfg : SystemConfig)
    → IsWellFormed cfg
    → assembled cfg.broker_uri cfg.device_id
        (record { wifi_ssid = some cfg.wifi_ssid; wifi_pass = some cfg.wifi_pass })
      ≡ cfg
assembled-same cfg w = ground (
  arith,
  truncate_short ssid_len cfg.wifi_ssid w.ssid,
  truncate_short pass_len cfg.wifi_pass w.pass,
  truncate_short uri_len cfg.broker_uri w.uri,
  truncate_short id_len cfg.device_id w.id,
)

-- A transport that was started with a configuration: the manager holds it whole, the callback is
-- registered, the topics are the device's, the health topic is not the telemetry topic, and the calls
-- of the start come before that of WiFi.
pub record IsConnecting {W : Type 0} (cfg : SystemConfig) (cb : Callback W) (s s' : State W)
    : Type 0 where
  pub cfg_eq : s'.cfg ≡ cfg
  pub callback : s'.cmd_cb ≡ some cb
  pub lock_made : (s'.lock == 0) ≡ false
  pub client_made : (s'.client == 0) ≡ false
  pub telemetry : s'.topic_telemetry ≡ whole_topic cfg.device_id (codes "/telemetry")
  pub command : s'.topic_command ≡ whole_topic cfg.device_id (codes "/command")
  pub health : s'.topic_health ≡ whole_topic cfg.device_id (codes "/health")
  pub distinct : eq_bytes s'.topic_health s'.topic_telemetry ≡ false
  pub untouched : s'.app ≡ s.app
  pub calls :
      s'.trace ≡ net create_telemetry_task ∷ net wifi_start ∷ start_calls cfg s'.client s.trace

module _ {W : Type 0} (P : Platform) where
  start-ok :
      (s : State W)
      → (start P s).0 ≡ returned ok
      → (start P s).1 ≡ log_call (net create_telemetry_task) (log_call (net wifi_start) s)
  unfolding start check
  start-ok s o = ground (arith, o)

  connect-ok :
      (cb : Callback W) (cfg : SystemConfig) (s : State W)
      → let (o, s1) = Manager.init P (some cfg) (set_command_cb (some cb) s) in
        (connect P (some cb) cfg s).0 ≡ returned ok
        → (o ≡ returned ok) × (connect P (some cb) cfg s ≡ start P s1)
  unfolding connect
  connect-ok cb cfg s o = ground (arith, o)

  -- If `transport_mqtt_init` returns ESP_OK for the configuration that `app_main` hands to it, made
  -- from a well-formed `system_config_t`, then the manager holds that configuration uncut, the
  -- callback was registered, the three topics are those of the device and uncut, and WiFi was started
  -- after every call that sets the stack, the handlers and the client up.
  pub transport_mqtt_init-IsConnecting :
      (cfg : SystemConfig) (cb : Callback W) (s : State W)
      → IsWellFormed cfg
      → (transport_mqtt_init P (some (transport_of cfg cb)) s).0 ≡ returned ok
      → IsConnecting cfg cb s (transport_mqtt_init P (some (transport_of cfg cb)) s).1
  unfolding transport_mqtt_init transport_mqtt_init_parts set_command_cb
  transport_mqtt_init-IsConnecting cfg cb s w o =
      let s0 : State W = set_command_cb (some cb) s in
      let s1 : State W = (Manager.init P (some cfg) s0).1 in
      let same : transport_mqtt_init P (some (transport_of cfg cb)) s ≡ connect P (some cb) cfg s =
        ap (λ (c : SystemConfig). connect P (some cb) c s) (assembled-same cfg w) in
      let (made, run) = connect-ok cb cfg s (rw same at o) in
      let d = init-IsStarted P cfg s0 made in
      let started = start-ok s1 (sym (ap (λ (r : Outcome × State W). r.0) (same ∙ run)) ∙ o) in
      let last = ap (λ (r : Outcome × State W). r.1) (same ∙ run) ∙ started in
      rw last (record {
        cfg_eq = d.cfg_eq;
        callback = d.callback;
        lock_made = d.lock_made;
        client_made = d.client_made;
        telemetry =
            d.telemetry ∙ topic_of-whole cfg.device_id (codes "/telemetry") w.id (omega arith);
        command = d.command ∙ topic_of-whole cfg.device_id (codes "/command") w.id (omega arith);
        health = d.health ∙ topic_of-whole cfg.device_id (codes "/health") w.id (omega arith);
        distinct =
            rw (d.health, d.telemetry)
              (topic_of-distinct cfg.device_id (codes "/health") (codes "/telemetry") w.id
                (omega arith) (omega arith));
        untouched = d.untouched;
        calls = ap (λ t. net create_telemetry_task ∷ net wifi_start ∷ t) (d.calls);
      })
