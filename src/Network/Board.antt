-- ===== src/Network/Board.antt =====
-- firmware/main/network/network_manager.c: the telemetry task, and the runs of the network manager as
-- sequences of events and calls, which come from several tasks in any order.
use fortunelabs_mainboard_l.Prelude.{
  ℕ, ◌+◌, ◌%◌, ◌^◌, Bool, List, [], ◌∷◌, Option, none, some, if◌then◌else◌,
}
use fortunelabs_mainboard_l.Platform.{Platform, net, client_publish}
use fortunelabs_mainboard_l.Network.Manager.{
  State, log_call, take_status, give_status, WifiEvent, MqttEvent, wifi_event_handler,
  mqtt_event_handler, is_connected, publish, publish_health, subscribe, telemetry_text,
}

-- The network manager with the variables of `task_network_telemetry`.
pub record Board (W : Type 0) : Type 0 where
  pub manager : State W
  pub tx_count : ℕ  -- uint32_t
  pub ready : Bool

-- What can happen: an event of the WiFi driver or of the client, the two halves of a round of the
-- telemetry task (the second with what `xQueuePeek` gives), and the calls of other tasks.
pub data Action (R : Type 0) : Type 0 where
  on_wifi : WifiEvent → Action R
  on_mqtt : MqttEvent → Action R
  telemetry_check : Action R
  telemetry_send : Option R → Action R
  call_publish : List ℕ → List ℕ → Action R
  call_publish_health : List ℕ → Action R
  call_subscribe : List ℕ → Action R
  call_is_connected : Action R

module _ {W R : Type 0} (P : Platform) (volt_text : R → List ℕ) where
  -- The first half of a round of `task_network_telemetry`: the status is read with the mutex.
  unfoldable pub read_ready : Board W → Board W
  read_ready b = record {
    manager = give_status (take_status b.manager);
    tx_count = b.tx_count;
    ready = b.manager.mqtt_connected;
  }

  -- The second half: the sample is published under the next number.
  unfoldable pub send_sample : Option R → Board W → Board W
  send_sample none b = b
  send_sample (some r) b =
      let s = b.manager in
      if b.ready
      then record b {
        manager =
            log_call
              (net (
                client_publish s.client s.topic_telemetry
                  (telemetry_text b.tx_count (volt_text r))))
              s;
        tx_count = (b.tx_count + 1) % 2 ^ 32;
      }
      else b

  unfoldable pub step : Action R → Board W → Board W
  unfolding read_ready send_sample
  step (on_wifi e) b = record b { manager = wifi_event_handler e b.manager }
  step (on_mqtt e) b = record b { manager = mqtt_event_handler e b.manager }
  step telemetry_check b = read_ready b
  step (telemetry_send sample) b = send_sample sample b
  step (call_publish topic payload) b = record b { manager = (publish P topic payload b.manager).1 }
  step (call_publish_health payload) b = record b {
    manager = (publish_health P payload b.manager).1;
  }
  step (call_subscribe topic) b = record b { manager = (subscribe P topic b.manager).1 }
  step call_is_connected b = record b { manager = (is_connected b.manager).1 }

  unfoldable pub run : List (Action R) → Board W → Board W
  run [] b = b
  run (a ∷ as') b = run as' (step a b)
