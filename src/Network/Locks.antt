-- ===== src/Network/Locks.antt =====
-- The mutex of the status flags of firmware/main/network/network_manager.c.
use fortunelabs_mainboard_l.Prelude.{
  ℕ, ◌≡◌, Bool, true, false, List, [], ◌∷◌, Option, none, some, if◌then◌else◌, ◌==◌, arith,
}
use fortunelabs_mainboard_l.Platform.{Platform, Trace, mutex, acquire, release, net}
use fortunelabs_mainboard_l.Network.Manager.{
  State, WifiEvent, sta_start, sta_disconnected, sta_got_ip, sta_other, MqttEvent, mqtt_connected,
  mqtt_disconnected, mqtt_data, mqtt_other, wifi_event_handler, mqtt_event_handler, is_connected,
  publish, publish_health, subscribe, when_connected,
}
use fortunelabs_mainboard_l.Network.Board.{
  Board, Action, on_wifi, on_mqtt, telemetry_check, telemetry_send, call_publish,
  call_publish_health, call_subscribe, call_is_connected, read_ready, send_sample, step, run,
}

-- A take of a free mutex, a give of a taken one, and a call of the network with the mutex free: what
-- becomes of "taken or not". Anything else, such as a take of a taken one, is a fault, `none`.
abbrev pub take_free : Option Bool → Option Bool
take_free (some false) = some true
take_free _ = none

abbrev pub give_taken : Option Bool → Option Bool
give_taken (some true) = some false
give_taken _ = none

abbrev pub call_free : Option Bool → Option Bool
call_free (some false) = some false
call_free _ = none

-- Whether the mutex is taken after the calls, if they keep these rules.
abbrev pub discipline : ℕ → Trace → Option Bool
discipline m [] = some false
discipline m (mutex (acquire n) ∷ t) = if n == m then take_free (discipline m t) else discipline m t
discipline m (mutex (release n) ∷ t) =
    if n == m then give_taken (discipline m t) else discipline m t
discipline m (net c ∷ t) = call_free (discipline m t)
discipline m (c ∷ t) = discipline m t

module _ {W : Type 0} where
  -- The rules were kept, and the mutex is free.
  abbrev pub IsFree : ℕ → State W → Type 0
  IsFree m s = (s.lock ≡ m) × (discipline m s.trace ≡ some false)

  wifi_event_handler-IsFree :
      (m : ℕ) (e : WifiEvent) (s : State W) → IsFree m s → IsFree m (wifi_event_handler e s)
  unfolding wifi_event_handler
  wifi_event_handler-IsFree m sta_start s h = ground (arith, h)
  wifi_event_handler-IsFree m sta_disconnected s h = ground (arith, h)
  wifi_event_handler-IsFree m sta_got_ip s h = ground (arith, h)
  wifi_event_handler-IsFree m sta_other s h = h

  mqtt_event_handler-IsFree :
      (m : ℕ) (e : MqttEvent) (s : State W) → IsFree m s → IsFree m (mqtt_event_handler e s)
  unfolding mqtt_event_handler
  mqtt_event_handler-IsFree m mqtt_connected s h = ground (arith, h)
  mqtt_event_handler-IsFree m mqtt_disconnected s h = ground (arith, h)
  mqtt_event_handler-IsFree m (mqtt_data topic payload) s h = ground (arith, h)
  mqtt_event_handler-IsFree m mqtt_other s h = h

  module _ {R : Type 0} (P : Platform) (volt_text : R → List ℕ) where
    step-IsFree :
        (m : ℕ) (a : Action R) (b : Board W)
        → IsFree m b.manager
        → IsFree m (step P volt_text a b).manager
    unfolding step read_ready send_sample publish publish_health subscribe when_connected
        is_connected
    step-IsFree m (on_wifi e) b h = wifi_event_handler-IsFree m e b.manager h
    step-IsFree m (on_mqtt e) b h = mqtt_event_handler-IsFree m e b.manager h
    step-IsFree m telemetry_check b h = ground (arith, h)
    step-IsFree m (telemetry_send none) b h = h
    step-IsFree m (telemetry_send (some r)) b h = ground (arith, h)
    step-IsFree m (call_publish topic payload) b h = ground (arith, h)
    step-IsFree m (call_publish_health payload) b h = ground (arith, h)
    step-IsFree m (call_subscribe topic) b h = ground (arith, h)
    step-IsFree m call_is_connected b h = ground (arith, h)

    -- In every run of events and calls, each of them at once, the status mutex is taken only while it
    -- is free and given back only while it is taken, it is free whenever the WiFi driver or the MQTT
    -- client is called, and free at the end, if that held before the run.
    pub run-IsFree :
        (m : ℕ) (as' : List (Action R)) (b : Board W)
        → IsFree m b.manager
        → IsFree m (run P volt_text as' b).manager
    unfolding run
    run-IsFree m [] b h = h
    run-IsFree m (a ∷ as') b h = run-IsFree m as' (step P volt_text a b) (step-IsFree m a b h)
