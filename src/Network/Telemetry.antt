-- ===== src/Network/Telemetry.antt =====
-- The telemetry of the network manager (firmware/main/network/network_manager.c): what
-- `task_network_telemetry` hands to the client over a run.
use fortunelabs_mainboard_l.Prelude.{
  ℕ, ◌+◌, ◌%◌, ◌^◌, ◌≡◌, refl, ◌∙◌, Bool, true, false, not, ◌&&◌, List, [], ◌∷◌, Option, none, some,
  if◌then◌else◌, arith,
}
use fortunelabs_mainboard_l.Prelude.Text.{eq_bytes, eq_bytes_refl}
use fortunelabs_mainboard_l.Platform.{Platform, Call, Trace, net, NetCall, client_publish}
use fortunelabs_mainboard_l.Network.Manager.{
  sta_start, sta_disconnected, sta_got_ip, sta_other, mqtt_connected, mqtt_disconnected, mqtt_other,
  mqtt_data, wifi_event_handler, mqtt_event_handler, is_connected, when_connected, publish,
  publish_health, subscribe, telemetry_text,
}
use fortunelabs_mainboard_l.Network.Board.{
  Board, Action, on_wifi, on_mqtt, telemetry_check, telemetry_send, call_publish,
  call_publish_health, call_subscribe, call_is_connected, read_ready, send_sample, step, run,
}
use fortunelabs_mainboard_l.Network.Status.{links_after}

-- The payloads handed to the client for a topic, the newest first.
abbrev pub sent_net : List ℕ → NetCall → List (List ℕ) → List (List ℕ)
sent_net topic (client_publish h t payload) xs = if eq_bytes t topic then payload ∷ xs else xs
sent_net topic _ xs = xs

abbrev pub sent_call : List ℕ → Call → List (List ℕ) → List (List ℕ)
sent_call topic (net c) xs = sent_net topic c xs
sent_call topic _ xs = xs

abbrev pub sent : List ℕ → Trace → List (List ℕ)
sent topic [] = []
sent topic (c ∷ t) = sent_call topic c (sent topic t)

abbrev pub rev_onto : List (List ℕ) → List (List ℕ) → List (List ℕ)
rev_onto [] ys = ys
rev_onto (x ∷ xs) ys = rev_onto xs (x ∷ ys)

module _ {R : Type 0} where
  -- The sample that an action publishes, by what the first half of the round found.
  abbrev pub sample_of : Action R → Bool → Option R
  sample_of (telemetry_send sample) ready = if ready then sample else none
  sample_of _ ready = none

  abbrev pub ready_after : Action R → Bool × Bool → Bool → Bool
  ready_after telemetry_check l ready = l.1
  ready_after _ l ready = ready

  abbrev pub prepend : Option R → List R → List R
  prepend none rs = rs
  prepend (some r) rs = r ∷ rs

  -- The samples that a run publishes, in order: those of the rounds whose first half found the
  -- client connected.
  unfoldable pub transmitted : List (Action R) → Bool × Bool → Bool → List R
  transmitted [] l ready = []
  transmitted (a ∷ as') l ready =
      prepend (sample_of a ready) (transmitted as' (links_after a l) (ready_after a l ready))

  -- No other task publishes to the topic.
  abbrev pub spares : List ℕ → Action R → Bool
  spares topic (call_publish t payload) = not (eq_bytes t topic)
  spares topic _ = true

  abbrev pub all_spare : List ℕ → List (Action R) → Bool
  all_spare topic [] = true
  all_spare topic (a ∷ as') = spares topic a && all_spare topic as'

  module _ (volt_text : R → List ℕ) where
    -- The payloads of samples that are numbered one after the other, modulo 2 ^ 32.
    abbrev pub numbered : ℕ → List R → List (List ℕ)
    numbered n [] = []
    numbered n (r ∷ rs) = telemetry_text n (volt_text r) ∷ numbered ((n + 1) % 2 ^ 32) rs

    abbrev pub next_number : ℕ → Option R → ℕ
    next_number n none = n
    next_number n (some r) = (n + 1) % 2 ^ 32

    numbered-prepend :
        (n : ℕ) (o : Option R) (rs : List R) (xs : List (List ℕ))
        → rev_onto (numbered (next_number n o) rs) (rev_onto (numbered n (prepend o [])) xs)
          ≡ rev_onto (numbered n (prepend o rs)) xs
    numbered-prepend n none rs xs = refl
    numbered-prepend n (some r) rs xs = refl

module _ {W R : Type 0} (P : Platform) (volt_text : R → List ℕ) where
  record IsStep (a : Action R) (b b' : Board W) : Type 0 where
    links_eq :
        (b'.manager.wifi_connected, b'.manager.mqtt_connected)
        ≡ links_after a (b.manager.wifi_connected, b.manager.mqtt_connected)
    ready_eq : b'.ready ≡ ready_after a (b.manager.wifi_connected, b.manager.mqtt_connected) b.ready
    number_eq : b'.tx_count ≡ next_number volt_text b.tx_count (sample_of a b.ready)
    telemetry_eq : b'.manager.topic_telemetry ≡ b.manager.topic_telemetry
    health_eq : b'.manager.topic_health ≡ b.manager.topic_health

  step-IsStep : (a : Action R) (b : Board W) → IsStep a b (step P volt_text a b)
  unfolding step read_ready send_sample wifi_event_handler mqtt_event_handler is_connected publish
      publish_health subscribe when_connected
  step-IsStep (on_wifi sta_start) b = ground arith
  step-IsStep (on_wifi sta_disconnected) b = ground arith
  step-IsStep (on_wifi sta_got_ip) b = ground arith
  step-IsStep (on_wifi sta_other) b = ground arith
  step-IsStep (on_mqtt mqtt_connected) b = ground arith
  step-IsStep (on_mqtt mqtt_disconnected) b = ground arith
  step-IsStep (on_mqtt mqtt_other) b = ground arith
  step-IsStep (on_mqtt (mqtt_data topic payload)) b = ground arith
  step-IsStep telemetry_check b = ground arith
  step-IsStep (telemetry_send none) b = ground arith
  step-IsStep (telemetry_send (some r)) b = ground arith
  step-IsStep (call_publish topic payload) b = ground arith
  step-IsStep (call_publish_health payload) b = ground arith
  step-IsStep (call_subscribe topic) b = ground arith
  step-IsStep call_is_connected b = ground arith

  step-sent :
      (a : Action R) (b : Board W)
      → let topic = b.manager.topic_telemetry in
        eq_bytes b.manager.topic_health topic ≡ false
        → spares topic a ≡ true
        → sent topic (step P volt_text a b).manager.trace
          ≡ rev_onto
              (numbered volt_text b.tx_count (prepend (sample_of a b.ready) []))
              (sent topic b.manager.trace)
  unfolding step read_ready send_sample wifi_event_handler mqtt_event_handler is_connected publish
      publish_health subscribe when_connected
  step-sent (on_wifi sta_start) b h o = ground (arith, h, o)
  step-sent (on_wifi sta_disconnected) b h o = ground (arith, h, o)
  step-sent (on_wifi sta_got_ip) b h o = ground (arith, h, o)
  step-sent (on_wifi sta_other) b h o = ground (arith, h, o)
  step-sent (on_mqtt mqtt_connected) b h o = ground (arith, h, o)
  step-sent (on_mqtt mqtt_disconnected) b h o = ground (arith, h, o)
  step-sent (on_mqtt mqtt_other) b h o = ground (arith, h, o)
  step-sent (on_mqtt (mqtt_data topic payload)) b h o = ground (arith, h, o)
  step-sent telemetry_check b h o = ground (arith, h, o)
  step-sent (telemetry_send none) b h o = ground (arith, h, o)
  step-sent (telemetry_send (some r)) b h o =
      ground (arith, h, o, eq_bytes_refl b.manager.topic_telemetry)
  step-sent (call_publish topic payload) b h o = ground (arith, h, o)
  step-sent (call_publish_health payload) b h o = ground (arith, h, o)
  step-sent (call_subscribe topic) b h o = ground (arith, h, o)
  step-sent call_is_connected b h o = ground (arith, h, o)

  pub run-numbered :
      (as' : List (Action R)) (b : Board W)
      → let topic = b.manager.topic_telemetry in
        eq_bytes b.manager.topic_health topic ≡ false
        → all_spare topic as' ≡ true
        → sent topic (run P volt_text as' b).manager.trace
          ≡ rev_onto
              (numbered volt_text b.tx_count
                (transmitted as' (b.manager.wifi_connected, b.manager.mqtt_connected) b.ready))
              (sent topic b.manager.trace)
  unfolding run transmitted step
  run-numbered [] b h o = refl
  run-numbered (a ∷ as') b h o =
      let s = step-IsStep a b in
      let topic = b.manager.topic_telemetry in
      let here : spares topic a ≡ true = ground (arith, o) in
      let rest : all_spare topic as' ≡ true = ground (arith, o) in
      let ih =
        run-numbered as' (step P volt_text a b) (rw (s.telemetry_eq, s.health_eq) h)
          (rw (s.telemetry_eq) rest) in
      let later =
        transmitted as' (links_after a (b.manager.wifi_connected, b.manager.mqtt_connected))
          (ready_after a (b.manager.wifi_connected, b.manager.mqtt_connected) b.ready) in
      (rw (s.telemetry_eq, s.links_eq, s.ready_eq, s.number_eq, step-sent a b h here) at ih)
      ∙ numbered-prepend volt_text b.tx_count (sample_of a b.ready) later
          (sent topic b.manager.trace)
