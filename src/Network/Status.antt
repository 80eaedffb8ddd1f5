-- ===== src/Network/Status.antt =====
-- The connection status over a run of the network manager (firmware/main/network/network_manager.c),
-- the guards of its publishing calls, and the commands that it hands on.
use fortunelabs_mainboard_l.Prelude.{
  ℕ, ◌≡◌, refl, sym, ap, ◌∙◌, Bool, true, false, not, ◌&&◌, ◌||◌, List, [], ◌∷◌, Option, none, some,
  arith,
}
use fortunelabs_mainboard_l.Platform.{Platform}
use fortunelabs_mainboard_l.Network.Manager.{
  Callback, WifiEvent, sta_start, sta_disconnected, sta_got_ip, sta_other, MqttEvent,
  mqtt_connected, mqtt_disconnected, mqtt_other, mqtt_data, wifi_event_handler, mqtt_event_handler,
  is_connected, when_connected, publish, publish_health, subscribe,
}
use fortunelabs_mainboard_l.Network.Board.{
  Board, Action, on_wifi, on_mqtt, telemetry_check, telemetry_send, call_publish,
  call_publish_health, call_subscribe, call_is_connected, read_ready, send_sample, step, run,
}

-- What an action says of the two links, WiFi and MQTT.
abbrev pub links_after_wifi : WifiEvent → Bool × Bool → Bool × Bool
links_after_wifi sta_disconnected (w, m) = (false, false)
links_after_wifi sta_got_ip (w, m) = (true, m)
links_after_wifi sta_start links = links
links_after_wifi sta_other links = links

abbrev pub links_after_mqtt : MqttEvent → Bool × Bool → Bool × Bool
links_after_mqtt mqtt_connected (w, m) = (w, true)
links_after_mqtt mqtt_disconnected (w, m) = (w, false)
links_after_mqtt mqtt_other links = links
links_after_mqtt (mqtt_data topic payload) links = links

module _ {R : Type 0} where
  abbrev pub links_after : Action R → Bool × Bool → Bool × Bool
  links_after (on_wifi e) links = links_after_wifi e links
  links_after (on_mqtt e) links = links_after_mqtt e links
  links_after _ links = links

  unfoldable pub links : List (Action R) → Bool × Bool → Bool × Bool
  links [] l = l
  links (a ∷ as') l = links as' (links_after a l)

  -- The message that an action brings, with its topic.
  abbrev pub message_of : Action R → Option (List ℕ × List ℕ)
  message_of (on_mqtt (mqtt_data topic payload)) = some (topic, payload)
  message_of _ = none

  -- The messages that a run receives, in order.
  abbrev pub messages : List (Action R) → List (List ℕ × List ℕ)
  messages [] = []
  messages (a ∷ as') = elim (message_of a) [
    | none ↦ messages as'
    | some message ↦ message ∷ messages as'
  ]

  -- The client reports a connection only while WiFi is connected.
  abbrev pub reports_connection : Action R → Bool
  reports_connection (on_mqtt mqtt_connected) = true
  reports_connection _ = false

  unfoldable pub orderly : List (Action R) → Bool × Bool → Bool
  orderly [] l = true
  orderly (a ∷ as') l = (not (reports_connection a) || l.0) && orderly as' (links_after a l)

  links_after-orderly :
      (a : Action R) (w m : Bool)
      → (not (reports_connection a) || w) ≡ true
      → (m ≡ true → w ≡ true)
      → let (w', m') = links_after a (w, m) in (m' ≡ true → w' ≡ true)
  links_after-orderly (on_wifi sta_start) w m o h = h
  links_after-orderly (on_wifi sta_disconnected) w m o h = λ e. e
  links_after-orderly (on_wifi sta_got_ip) w m o h = λ e. refl
  links_after-orderly (on_wifi sta_other) w m o h = h
  links_after-orderly (on_mqtt mqtt_connected) w m o h = λ e. o
  links_after-orderly (on_mqtt mqtt_disconnected) w m o h = λ e. absurd (cc e)
  links_after-orderly (on_mqtt mqtt_other) w m o h = h
  links_after-orderly (on_mqtt (mqtt_data topic payload)) w m o h = h
  links_after-orderly telemetry_check w m o h = h
  links_after-orderly (telemetry_send sample) w m o h = h
  links_after-orderly (call_publish topic payload) w m o h = h
  links_after-orderly (call_publish_health payload) w m o h = h
  links_after-orderly (call_subscribe topic) w m o h = h
  links_after-orderly call_is_connected w m o h = h

  links-orderly :
      (as' : List (Action R)) (w m : Bool)
      → orderly as' (w, m) ≡ true
      → (m ≡ true → w ≡ true)
      → let (w', m') = links as' (w, m) in (m' ≡ true → w' ≡ true)
  unfolding orderly links
  links-orderly [] w m o h = h
  links-orderly (a ∷ as') w m o h =
      let (w', m') = links_after a (w, m) in
      let here : (not (reports_connection a) || w) ≡ true = ground (arith, o) in
      let rest : orderly as' (w', m') ≡ true = ground (arith, o) in
      links-orderly as' w' m' rest (links_after-orderly a w m here h)

abbrev pub hand_on : {W : Type 0} → Callback W → List (List ℕ × List ℕ) → W → W
hand_on cb [] w = w
hand_on cb ((topic, payload) ∷ more) w = hand_on cb more (cb topic payload w)

module _ {W R : Type 0} (P : Platform) (volt_text : R → List ℕ) where
  -- What a step leaves of the status, the callback and the state that the callback acts on.
  step-links :
      (a : Action R) (b : Board W)
      → let s = b.manager in
        let s' = (step P volt_text a b).manager in
        ((s'.wifi_connected, s'.mqtt_connected)
          ≡ links_after a (s.wifi_connected, s.mqtt_connected))
        × (s'.cmd_cb ≡ s.cmd_cb)
  unfolding step read_ready send_sample wifi_event_handler mqtt_event_handler is_connected publish
      publish_health subscribe when_connected
  step-links (on_wifi sta_start) b = ground arith
  step-links (on_wifi sta_disconnected) b = ground arith
  step-links (on_wifi sta_got_ip) b = ground arith
  step-links (on_wifi sta_other) b = ground arith
  step-links (on_mqtt mqtt_connected) b = ground arith
  step-links (on_mqtt mqtt_disconnected) b = ground arith
  step-links (on_mqtt mqtt_other) b = ground arith
  step-links (on_mqtt (mqtt_data topic payload)) b = ground arith
  step-links telemetry_check b = ground arith
  step-links (telemetry_send none) b = ground arith
  step-links (telemetry_send (some r)) b = ground arith
  step-links (call_publish topic payload) b = ground arith
  step-links (call_publish_health payload) b = ground arith
  step-links (call_subscribe topic) b = ground arith
  step-links call_is_connected b = ground arith

  pub run-links :
      (as' : List (Action R)) (b : Board W)
      → let s = b.manager in
        let s' = (run P volt_text as' b).manager in
        (s'.wifi_connected, s'.mqtt_connected) ≡ links as' (s.wifi_connected, s.mqtt_connected)
  unfolding run links
  run-links [] b = refl
  run-links (a ∷ as') b = run-links as' (step P volt_text a b) ∙ ap (links as') ((step-links a b).0)

  -- If the client reports a connection only while WiFi is connected, then at the end of every run the
  -- manager takes MQTT for connected only if it takes WiFi for connected, provided it did at first.
  pub run-orderly :
      (as' : List (Action R)) (b : Board W)
      → let s = b.manager in
        let s' = (run P volt_text as' b).manager in
        orderly as' (s.wifi_connected, s.mqtt_connected) ≡ true
        → (s.mqtt_connected ≡ true → s.wifi_connected ≡ true)
        → s'.mqtt_connected ≡ true
        → s'.wifi_connected ≡ true
  run-orderly as' b o h e =
      let s = b.manager in
      let same = run-links as' b in
      ap (λ (l : Bool × Bool). l.0) same
      ∙ links-orderly as' s.wifi_connected s.mqtt_connected o h
          (sym (ap (λ (l : Bool × Bool). l.1) same) ∙ e)

  -- A connection that the client reports after WiFi was lost leaves the manager connected to the
  -- broker without WiFi.
  pub late_connected :
      (b : Board W)
      → let s' =
          (run P volt_text (on_wifi sta_disconnected ∷ on_mqtt mqtt_connected ∷ []) b).manager in
        (s'.wifi_connected ≡ false) × (s'.mqtt_connected ≡ true)
  unfolding links
  late_connected b =
      let same = run-links (on_wifi sta_disconnected ∷ on_mqtt mqtt_connected ∷ []) b in
      (ap (λ (l : Bool × Bool). l.0) same, ap (λ (l : Bool × Bool). l.1) same)

  step-hand_on :
      (cb : Callback W) (a : Action R) (b : Board W)
      → b.manager.cmd_cb ≡ some cb
      → (step P volt_text a b).manager.app ≡ hand_on cb (messages (a ∷ [])) b.manager.app
  unfolding step read_ready send_sample wifi_event_handler mqtt_event_handler is_connected publish
      publish_health subscribe when_connected
  step-hand_on cb (on_wifi sta_start) b e = refl
  step-hand_on cb (on_wifi sta_disconnected) b e = refl
  step-hand_on cb (on_wifi sta_got_ip) b e = ground arith
  step-hand_on cb (on_wifi sta_other) b e = refl
  step-hand_on cb (on_mqtt mqtt_connected) b e = refl
  step-hand_on cb (on_mqtt mqtt_disconnected) b e = refl
  step-hand_on cb (on_mqtt mqtt_other) b e = refl
  step-hand_on cb (on_mqtt (mqtt_data topic payload)) b e = rw e refl
  step-hand_on cb telemetry_check b e = refl
  step-hand_on cb (telemetry_send none) b e = refl
  step-hand_on cb (telemetry_send (some r)) b e = ground arith
  step-hand_on cb (call_publish topic payload) b e = ground arith
  step-hand_on cb (call_publish_health payload) b e = ground arith
  step-hand_on cb (call_subscribe topic) b e = ground arith
  step-hand_on cb call_is_connected b e = ground arith

  messages_next :
      (cb : Callback W) (a : Action R) (as' : List (Action R)) (w : W)
      → hand_on cb (messages (a ∷ as')) w
        ≡ hand_on cb (messages as') (hand_on cb (messages (a ∷ [])) w)
  messages_next cb a as' w =
      elim (message_of a)
        as (λ m.
          hand_on cb (elim m [ none ↦ messages as' | some message ↦ message ∷ messages as' ]) w
          ≡ hand_on cb (messages as')
              (hand_on cb (elim m [ none ↦ [] | some message ↦ message ∷ [] ]) w)) [
                | none ↦ refl
                | some (topic, payload) ↦ refl
              ]

  -- A run hands every message that it receives to the registered callback, once and in order, and
  -- nothing else touches what the callback acts on.
  pub run-hand_on :
      (cb : Callback W) (as' : List (Action R)) (b : Board W)
      → b.manager.cmd_cb ≡ some cb
      → (run P volt_text as' b).manager.app ≡ hand_on cb (messages as') b.manager.app
  unfolding run
  run-hand_on cb [] b e = refl
  run-hand_on cb (a ∷ as') b e =
      run-hand_on cb as' (step P volt_text a b) ((step-links a b).1 ∙ e)
      ∙ ap (hand_on cb (messages as')) (step-hand_on cb a b e)
      ∙ sym (messages_next cb a as' b.manager.app)
