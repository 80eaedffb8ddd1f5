-- ===== src/Network/Reconnecting.antt =====
-- How the network manager (firmware/main/network/network_manager.c) answers a loss of WiFi and a
-- connection to the broker, over a run.
use fortunelabs_mainboard_l.Prelude.{
  ℕ, ◌+◌, ◌≡◌, Bool, true, not, ◌&&◌, List, [], ◌∷◌, none, some, if◌then◌else◌, arith,
}
use fortunelabs_mainboard_l.Prelude.Text.{eq_bytes, eq_bytes_refl}
use fortunelabs_mainboard_l.Platform.{
  Platform, Call, Trace, net, NetCall, wifi_connect, client_subscribe,
}
use fortunelabs_mainboard_l.Network.Manager.{
  sta_start, sta_disconnected, sta_got_ip, sta_other, mqtt_connected, mqtt_disconnected, mqtt_other,
  mqtt_data, wifi_event_handler, mqtt_event_handler, is_connected, when_connected, publish,
  publish_health, subscribe,
}
use fortunelabs_mainboard_l.Network.Board.{
  Board, Action, on_wifi, on_mqtt, telemetry_check, telemetry_send, call_publish,
  call_publish_health, call_subscribe, call_is_connected, read_ready, send_sample, step, run,
}

-- How often a trace asks WiFi to connect, and how often it subscribes to a topic.
abbrev pub connects_net : NetCall → ℕ
connects_net wifi_connect = 1
connects_net _ = 0

abbrev pub connects_call : Call → ℕ
connects_call (net c) = connects_net c
connects_call _ = 0

abbrev pub connects : Trace → ℕ
connects [] = 0
connects (c ∷ t) = connects_call c + connects t

abbrev pub subscribes_net : List ℕ → NetCall → ℕ
subscribes_net topic (client_subscribe h t) = if eq_bytes t topic then 1 else 0
subscribes_net topic _ = 0

abbrev pub subscribes_call : List ℕ → Call → ℕ
subscribes_call topic (net c) = subscribes_net topic c
subscribes_call topic _ = 0

abbrev pub subscribes : List ℕ → Trace → ℕ
subscribes topic [] = 0
subscribes topic (c ∷ t) = subscribes_call topic c + subscribes topic t

module _ {R : Type 0} where
  -- The events that WiFi has started or is lost, and that the broker is connected.
  abbrev pub wants_wifi : Action R → ℕ
  wants_wifi (on_wifi sta_start) = 1
  wants_wifi (on_wifi sta_disconnected) = 1
  wants_wifi _ = 0

  abbrev pub wants_topic : Action R → ℕ
  wants_topic (on_mqtt mqtt_connected) = 1
  wants_topic _ = 0

  abbrev pub total : (Action R → ℕ) → List (Action R) → ℕ
  total f [] = 0
  total f (a ∷ as') = f a + total f as'

  -- No other task subscribes to the topic.
  abbrev pub leaves : List ℕ → Action R → Bool
  leaves topic (call_subscribe t) = not (eq_bytes t topic)
  leaves topic _ = true

  abbrev pub all_leave : List ℕ → List (Action R) → Bool
  all_leave topic [] = true
  all_leave topic (a ∷ as') = leaves topic a && all_leave topic as'

module _ {W R : Type 0} (P : Platform) (volt_text : R → List ℕ) where
  step-answers :
      (a : Action R) (b : Board W)
      → let s = b.manager in
        let s' = (step P volt_text a b).manager in
        leaves s.topic_command a ≡ true
        → (connects s'.trace ≡ wants_wifi a + connects s.trace)
          × (subscribes s.topic_command s'.trace
              ≡ wants_topic a + subscribes s.topic_command s.trace)
          × (s'.topic_command ≡ s.topic_command)
  unfolding step read_ready send_sample wifi_event_handler mqtt_event_handler is_connected publish
      publish_health subscribe when_connected
  step-answers (on_wifi sta_start) b o = ground arith
  step-answers (on_wifi sta_disconnected) b o = ground arith
  step-answers (on_wifi sta_got_ip) b o = ground arith
  step-answers (on_wifi sta_other) b o = ground arith
  step-answers (on_mqtt mqtt_connected) b o = ground (arith, eq_bytes_refl b.manager.topic_command)
  step-answers (on_mqtt mqtt_disconnected) b o = ground arith
  step-answers (on_mqtt mqtt_other) b o = ground arith
  step-answers (on_mqtt (mqtt_data topic payload)) b o = ground arith
  step-answers telemetry_check b o = ground arith
  step-answers (telemetry_send none) b o = ground arith
  step-answers (telemetry_send (some r)) b o = ground arith
  step-answers (call_publish topic payload) b o = ground arith
  step-answers (call_publish_health payload) b o = ground arith
  step-answers (call_subscribe topic) b o = ground (arith, o)
  step-answers call_is_connected b o = ground arith

  -- A run adds exactly as many attempts to connect WiFi as WiFi starts and is lost in it, and exactly as
  -- many subscriptions to the command topic as the broker is connected, if no other task subscribes
  -- to that topic.
  pub run-answers :
      (as' : List (Action R)) (b : Board W)
      → let s = b.manager in
        let s' = (run P volt_text as' b).manager in
        all_leave s.topic_command as' ≡ true
        → (connects s'.trace ≡ total wants_wifi as' + connects s.trace)
          × (subscribes s.topic_command s'.trace
              ≡ total wants_topic as' + subscribes s.topic_command s.trace)
  unfolding run step
  run-answers [] b o = (omega arith, omega arith)
  run-answers (a ∷ as') b o =
      let topic = b.manager.topic_command in
      let b1 : Board W = step P volt_text a b in
      let here : leaves topic a ≡ true = ground (arith, o) in
      let rest : all_leave topic as' ≡ true = ground (arith, o) in
      let (wifi, subs, same) = step-answers a b here in
      let (wifi', subs') = run-answers as' b1 (rw same rest) in
      (omega (arith, wifi, wifi'), omega (arith, subs, rw same at subs'))
