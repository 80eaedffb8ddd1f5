-- ===== src/Network/Starting.antt =====
-- The start of the network manager (firmware/main/network/network_manager.c): the calls that
-- `network_manager_init` makes, in their order, and its topics.
use fortunelabs_mainboard_l.Prelude.{
  ℕ, ◌≡◌, false, ◌∷◌, some, ◌==◌, arith, Bool-cases, inl, inr, take,
}
use fortunelabs_mainboard_l.Prelude.Text.{codes}
use fortunelabs_mainboard_l.Platform.{
  ok, Platform, Trace, mutex, create, net, netif_init, event_loop_create, netif_create_sta,
  wifi_init, register_wifi, register_ip, wifi_set_mode, wifi_set_config, client_init,
  client_register,
}
use fortunelabs_mainboard_l.SystemConfig.Store.{SystemConfig}
use fortunelabs_mainboard_l.Network.Manager.{
  State, returned, check, init_client, init_wifi, init, topic_of, sta_ssid_len, sta_pass_len,
}

-- The calls of a start, the newest first.
abbrev pub start_calls : SystemConfig → ℕ → Trace → Trace
start_calls cfg client t =
    net (client_register client)
    ∷ net (client_init cfg.broker_uri (topic_of cfg.device_id (codes "/health")))
    ∷ net (wifi_set_config (take sta_ssid_len cfg.wifi_ssid) (take sta_pass_len cfg.wifi_pass))
    ∷ net wifi_set_mode
    ∷ net register_ip
    ∷ net register_wifi
    ∷ net wifi_init
    ∷ net netif_create_sta
    ∷ net event_loop_create
    ∷ net netif_init
    ∷ mutex create
    ∷ t

-- A manager that was started with a configuration.
pub record IsStarted {W : Type 0} (cfg : SystemConfig) (s s' : State W) : Type 0 where
  pub cfg_eq : s'.cfg ≡ cfg
  pub lock_made : (s'.lock == 0) ≡ false
  pub client_made : (s'.client == 0) ≡ false
  pub telemetry : s'.topic_telemetry ≡ topic_of cfg.device_id (codes "/telemetry")
  pub command : s'.topic_command ≡ topic_of cfg.device_id (codes "/command")
  pub health : s'.topic_health ≡ topic_of cfg.device_id (codes "/health")
  pub calls : s'.trace ≡ start_calls cfg s'.client s.trace
  pub callback : s'.cmd_cb ≡ s.cmd_cb
  pub untouched : s'.app ≡ s.app

module _ {W : Type 0} (P : Platform) where
  -- What a start needs of the state in which it makes the client, and what it leaves.
  record IsMade (s s' : State W) : Type 0 where
    cfg_eq : s'.cfg ≡ s.cfg
    lock_eq : s'.lock ≡ s.lock
    client_made : (s'.client == 0) ≡ false
    telemetry : s'.topic_telemetry ≡ topic_of s.cfg.device_id (codes "/telemetry")
    command : s'.topic_command ≡ topic_of s.cfg.device_id (codes "/command")
    health : s'.topic_health ≡ topic_of s.cfg.device_id (codes "/health")
    calls :
        s'.trace
        ≡ net (client_register s'.client)
          ∷ net (client_init s.cfg.broker_uri (topic_of s.cfg.device_id (codes "/health")))
          ∷ s.trace
    callback : s'.cmd_cb ≡ s.cmd_cb
    untouched : s'.app ≡ s.app

  init_client-IsMade :
      (s : State W) → (init_client P s).0 ≡ returned ok → IsMade s (init_client P s).1
  unfolding init_client check
  init_client-IsMade s o = ground (arith, o)

  abbrev wifi_ready : State W → State W
  wifi_ready s = record s {
    trace =
        net
          (wifi_set_config (take sta_ssid_len s.cfg.wifi_ssid) (take sta_pass_len s.cfg.wifi_pass))
        ∷ net wifi_set_mode
        ∷ net register_ip
        ∷ net register_wifi
        ∷ net wifi_init
        ∷ net netif_create_sta
        ∷ net event_loop_create
        ∷ net netif_init
        ∷ s.trace;
  }

  init_wifi-IsMade :
      (s : State W) → (init_wifi P s).0 ≡ returned ok → IsMade (wifi_ready s) (init_wifi P s).1
  unfolding init_wifi check
  init_wifi-IsMade s o = ground (arith, o, init_client-IsMade (wifi_ready s))

  -- If `network_manager_init` returns ESP_OK, then it has made the calls of a start, each once and in
  -- order, with the mutex and the client made and the topics of the device; the handlers of the
  -- events are registered before WiFi is started, which this call does not do.
  pub init-IsStarted :
      (cfg : SystemConfig) (s : State W)
      → (init P (some cfg) s).0 ≡ returned ok
      → IsStarted cfg s (init P (some cfg) s).1
  unfolding init
  init-IsStarted cfg s o =
      let made : State W = record s {
        cfg = cfg;
        lock = P.value s.trace (mutex create);
        trace = mutex create ∷ s.trace;
      } in
      elim (Bool-cases (made.lock == 0)) [
        | inl e ↦ absurd (ground (arith, e, o))
        | inr e ↦
            let same : init P (some cfg) s ≡ init_wifi P made = ground (arith, e) in
            let d = init_wifi-IsMade made (rw same at o) in
            rw same (record {
              cfg_eq = d.cfg_eq;
              lock_made = rw (d.lock_eq) e;
              client_made = d.client_made;
              telemetry = d.telemetry;
              command = d.command;
              health = d.health;
              calls = d.calls;
              callback = d.callback;
              untouched = d.untouched;
            })
      ]
