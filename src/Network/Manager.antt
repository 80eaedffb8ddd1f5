-- ===== src/Network/Manager.antt =====
-- firmware/main/network/network_manager.c: the state of the network manager, its two event handlers,
-- its start and its publishing operations. `W` is what the command callback acts on.
use fortunelabs_mainboard_l.Prelude.{
  ℕ, Bool, true, false, not, ◌||◌, List, ◌∷◌, ◌++◌, Option, none, some, if◌then◌else◌, ◌==◌, take,
}
use fortunelabs_mainboard_l.Prelude.Text.{codes, truncate}
use fortunelabs_mainboard_l.Platform.{
  Err, ok, err, fail, no_mem, invalid_arg, invalid_state, is_ok, Call, Trace, Platform, mutex,
  create, acquire, release, net, netif_init, event_loop_create, netif_create_sta, wifi_init,
  register_wifi, register_ip, wifi_set_mode, wifi_set_config, wifi_start, wifi_connect, client_init,
  client_register, client_start, client_publish, client_subscribe, create_telemetry_task,
}
use fortunelabs_mainboard_l.SystemConfig.Store.{SystemConfig}
use fortunelabs_mainboard_l.Supervisor.Task.{decimal}

abbrev pub topic_len : ℕ
topic_len = 64

abbrev pub payload_len : ℕ
payload_len = 128

-- The sizes of `ssid` and `password` in the station configuration of the WiFi driver.
abbrev pub sta_ssid_len : ℕ
sta_ssid_len = 32

abbrev pub sta_pass_len : ℕ
sta_pass_len = 64

-- `transport_cmd_cb_t`: the topic and the bytes of a message.
abbrev pub Callback : Type 0 → Type 0
Callback W = List ℕ → List ℕ → W → W

-- The static variables of the file, what the callback acts on, and the calls made so far. A handle is
-- a number, 0 for NULL.
pub record State (W : Type 0) : Type 0 where
  pub cmd_cb : Option (Callback W)
  pub cfg : SystemConfig
  pub client : ℕ
  pub lock : ℕ
  pub wifi_connected : Bool
  pub mqtt_connected : Bool
  pub topic_telemetry : List ℕ
  pub topic_command : List ℕ
  pub topic_health : List ℕ
  pub app : W
  pub trace : Trace

-- The events of `WIFI_EVENT` and `IP_EVENT_STA_GOT_IP`.
pub data WifiEvent : Type 0 where
  sta_start sta_disconnected sta_got_ip sta_other : WifiEvent

-- The events of the MQTT client; a message has its topic and its payload.
pub data MqttEvent : Type 0 where
  mqtt_connected mqtt_disconnected mqtt_other : MqttEvent
  mqtt_data : List ℕ → List ℕ → MqttEvent

-- What a call of the start-up ends with: `ESP_ERROR_CHECK` aborts the program.
pub data Outcome : Type 0 where
  returned : Err → Outcome
  aborted : Outcome

-- A topic of a device, as `snprintf` leaves it in its buffer.
unfoldable pub topic_of : List ℕ → List ℕ → List ℕ
topic_of id kind = truncate topic_len (codes "fortunelabs/device/" ++ (id ++ kind))

-- The telemetry payload that `snprintf` prints, of a sample printed with `%.2f`.
abbrev pub telemetry_text : ℕ → List ℕ → List ℕ
telemetry_text seq volts = truncate payload_len (
    codes "{\"seq\":\""
    ++ (decimal seq ++ (codes "\",\"sensor_v\":" ++ (volts ++ codes ",\"status\":\"OK\"}"))))

module _ {W : Type 0} where
  abbrev pub log_call : Call → State W → State W
  log_call c s = record s { trace = c ∷ s.trace }

  abbrev pub take_status : State W → State W
  take_status s = log_call (mutex (acquire s.lock)) s

  abbrev pub give_status : State W → State W
  give_status s = log_call (mutex (release s.lock)) s

  -- `wifi_event_handler`
  unfoldable pub wifi_event_handler : WifiEvent → State W → State W
  wifi_event_handler sta_start s = log_call (net wifi_connect) s
  wifi_event_handler sta_disconnected s =
      log_call (net wifi_connect)
        (give_status (record (take_status s) { wifi_connected = false; mqtt_connected = false }))
  wifi_event_handler sta_got_ip s =
      let s1 = give_status (record (take_status s) { wifi_connected = true }) in
      if s1.client == 0 then s1 else log_call (net (client_start s1.client)) s1
  wifi_event_handler sta_other s = s

  -- `mqtt_event_handler`
  unfoldable pub mqtt_event_handler : MqttEvent → State W → State W
  mqtt_event_handler mqtt_connected s =
      log_call (net (client_subscribe s.client s.topic_command))
        (give_status (record (take_status s) { mqtt_connected = true }))
  mqtt_event_handler mqtt_disconnected s =
      give_status (record (take_status s) { mqtt_connected = false })
  mqtt_event_handler (mqtt_data topic payload) s = elim s.cmd_cb [
    | none ↦ s
    | some cb ↦ record s { app = cb topic payload s.app }
  ]
  mqtt_event_handler mqtt_other s = s

  -- `network_manager_set_command_cb`
  unfoldable pub set_command_cb : Option (Callback W) → State W → State W
  set_command_cb cb s = record s { cmd_cb = cb }

  -- `network_manager_is_connected`
  unfoldable pub is_connected : State W → Bool × State W
  is_connected s =
      if s.lock == 0 then (false, s) else (s.mqtt_connected, give_status (take_status s))

module _ {W : Type 0} (P : Platform) where
  open P use {status, value}

  -- A call under `ESP_ERROR_CHECK`: the rest runs only after ESP_OK.
  unfoldable pub check : Call → (State W → Outcome × State W) → State W → Outcome × State W
  check c k s =
      let s' = log_call c s in elim (status s.trace c) [ ok ↦ k s' | err e ↦ (aborted, s') ]

  -- `network_manager_init` from `esp_mqtt_client_init` on.
  unfoldable pub init_client : State W → Outcome × State W
  unfolding check
  init_client s =
      let topics = record s {
        topic_telemetry = topic_of s.cfg.device_id (codes "/telemetry");
        topic_command = topic_of s.cfg.device_id (codes "/command");
        topic_health = topic_of s.cfg.device_id (codes "/health");
      } in
      let c : Call = net (client_init s.cfg.broker_uri topics.topic_health) in
      let made = record (log_call c topics) { client = value s.trace c } in
      if made.client == 0
      then (returned (err fail), made)
      else check (net (client_register made.client)) (λ s'. (returned ok, s')) made

  -- `network_manager_init` from `esp_netif_init` to the WiFi configuration. The strings that
  -- `strncpy` copies are the first bytes that fit, with no NUL if they fill the buffer.
  unfoldable pub init_wifi : State W → Outcome × State W
  unfolding check init_client
  init_wifi s =
      check (net netif_init)
        (check (net event_loop_create) (λ s1.
          check (net wifi_init)
            (check (net register_wifi) (
              check (net register_ip) (
                check (net wifi_set_mode) (
                  check
                    (net (
                      wifi_set_config (take sta_ssid_len s.cfg.wifi_ssid)
                        (take sta_pass_len s.cfg.wifi_pass)))
                    init_client))))
            (log_call (net netif_create_sta) s1)))
        s

  -- `network_manager_init`; `none` is NULL.
  unfoldable pub init : Option SystemConfig → State W → Outcome × State W
  unfolding init_wifi
  init none s = (returned (err invalid_arg), s)
  init (some cfg) s =
      let c : Call = mutex create in
      let made = record s { cfg = cfg; lock = value s.trace c; trace = c ∷ s.trace } in
      if made.lock == 0 then (returned (err no_mem), made) else init_wifi made

  -- `network_manager_start`
  unfoldable pub start : State W → Outcome × State W
  unfolding check
  start s =
      check (net wifi_start)
        (λ s1.
          let c : Call = net create_telemetry_task in
          (returned (if is_ok (status s1.trace c) then ok else err no_mem), log_call c s1))
        s

  -- A call of the client that needs a connection, which is read without the mutex.
  unfoldable pub when_connected : Call → State W → Err × State W
  when_connected c s =
      if s.client == 0 || not s.mqtt_connected
      then (err invalid_state, s)
      else (if is_ok (status s.trace c) then ok else err fail, log_call c s)

  -- `network_manager_publish_health`
  unfoldable pub publish_health : List ℕ → State W → Err × State W
  publish_health payload s = when_connected (net (client_publish s.client s.topic_health payload)) s

  -- `network_manager_publish`
  unfoldable pub publish : List ℕ → List ℕ → State W → Err × State W
  publish topic payload s = when_connected (net (client_publish s.client topic payload)) s

  -- `network_manager_subscribe`
  unfoldable pub subscribe : List ℕ → State W → Err × State W
  subscribe topic s = when_connected (net (client_subscribe s.client topic)) s
