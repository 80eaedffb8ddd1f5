-- ===== src/Tests/NetworkTests.antt =====
-- The network manager and its start on concrete inputs.
use fortunelabs_mainboard_l.Prelude.{
  ◌+◌, take, length, ℕ, ◌≡◌, refl, ap, Bool, true, false, List, [], ◌∷◌, ◌++◌, none, some, arith,
}
use fortunelabs_mainboard_l.Prelude.Text.{codes}
use fortunelabs_mainboard_l.Queues.{QueueApi}
use fortunelabs_mainboard_l.Network.Manager.{
  State, sta_got_ip, sta_disconnected, mqtt_connected, mqtt_data,
}
use fortunelabs_mainboard_l.Network.Board.{
  Board, Action, on_wifi, on_mqtt, telemetry_check, telemetry_send, call_publish, run,
}
use fortunelabs_mainboard_l.Network.Status.{messages, links, run-links, orderly, run-orderly}
use fortunelabs_mainboard_l.Network.Commands.{asked_by, command_cb, payloads, run-queued}
use fortunelabs_mainboard_l.Network.Telemetry.{sent, transmitted}
use fortunelabs_mainboard_l.Network.Reconnecting.{
  connects, subscribes, wants_wifi, wants_topic, total, run-answers,
}
use fortunelabs_mainboard_l.Network.Locks.{discipline, run-IsFree}
use fortunelabs_mainboard_l.LogService.Facade as Log
use fortunelabs_mainboard_l.LogService.Facade.{log_all, forward_all}
use fortunelabs_mainboard_l.LogService.Serial.{newest_first}
use fortunelabs_mainboard_l.LogService.Forwarding.{cut_lines, idle}
use fortunelabs_mainboard_l.App.RemoteLog.{sink_all, log_all-published}
use fortunelabs_mainboard_l.Tests.Boards.{healthy}
use fortunelabs_mainboard_l.Tests.QueueTests.{fresh_log, list_queue, lines}
use fortunelabs_mainboard_l.Tests.ConfigTests.{empty}

abbrev pub actuator : QueueApi Bool
actuator = list_queue Bool 5

abbrev manager : State (List Bool)
manager = record {
  cmd_cb = some (command_cb actuator);
  cfg = empty;
  client = 1;
  lock = 1;
  wifi_connected = false;
  mqtt_connected = false;
  topic_telemetry = codes "t";
  topic_command = codes "c";
  topic_health = codes "h";
  app = [];
  trace = [];
}

abbrev at_first : Board (List Bool)
at_first = record { manager = manager; tx_count = 7; ready = false }

-- Samples in tenths of a volt, printed as one character.
abbrev volt_text : ℕ → List ℕ
volt_text r = r ∷ []

-- A run with a connection, two commands, another message, and a loss of the network in the middle of
-- a round.
abbrev events : List (Action ℕ)
events =
    telemetry_check
    ∷ telemetry_send (some 20)
    ∷ on_wifi sta_got_ip
    ∷ on_mqtt mqtt_connected
    ∷ on_mqtt (mqtt_data (codes "c") (codes "ON"))
    ∷ telemetry_check
    ∷ on_mqtt (mqtt_data (codes "c") (codes "on"))
    ∷ on_wifi sta_disconnected
    ∷ telemetry_send (some 21)
    ∷ on_wifi sta_got_ip
    ∷ on_mqtt mqtt_connected
    ∷ call_publish (codes "log") (codes "line")
    ∷ on_mqtt (mqtt_data (codes "c") (codes "OFF"))
    ∷ telemetry_check
    ∷ telemetry_send (some 22)
    ∷ []

run-queued_example :
    (run healthy volt_text events at_first).manager.app
    ≡ [] ++ asked_by (payloads (messages events))
run-queued_example = run-queued actuator healthy volt_text events at_first refl (omega arith)

two_commands : asked_by (payloads (messages events)) ≡ true ∷ false ∷ []
two_commands = refl

two_samples : transmitted events (false, false) false ≡ 21 ∷ 22 ∷ []
unfolding transmitted
two_samples = refl

run-orderly_example : (run healthy volt_text events at_first).manager.wifi_connected ≡ true
unfolding orderly links
run-orderly_example =
    run-orderly healthy volt_text events at_first refl (λ e. e)
      (ap (λ (l : Bool × Bool). l.1) (run-links healthy volt_text events at_first))

-- A manager before its start.
abbrev pub unstarted : State (List Bool)
unstarted = record manager {
  cmd_cb = none;
  client = 0;
  lock = 0;
  topic_telemetry = [];
  topic_command = [];
  topic_health = [];
}

abbrev pub linked : State (List Bool)
linked = record manager { wifi_connected = true; mqtt_connected = true }

log_all-published_example :
    let texts = codes "a" ∷ codes "b" ∷ codes "c" ∷ [] in
    let kept = take 2 ([] ++ cut_lines texts) in
    (logged drained : Log.State lines) × (log_all lines 1 texts (idle lines fresh_log [] [] [])
      ≡ some logged)
    × (forward_all lines 1 (length kept) (codes "d" ∷ []) logged ≡ some drained)
    × (sent (codes "log") (sink_all healthy (codes "log") drained.sunk linked).trace
        ≡ newest_first kept [] ++ sent (codes "log") linked.trace)
log_all-published_example =
    log_all-published healthy (codes "log") lines 0 (codes "a" ∷ codes "b" ∷ codes "c" ∷ [])
      (codes "d" ∷ []) fresh_log [] linked (omega arith)
      (record { lock_made = refl; client_made = refl; linked = refl })

run-answers_example :
    let s' = (run healthy volt_text events at_first).manager in
    (connects s'.trace ≡ total wants_wifi events + 0)
    × (subscribes (codes "c") s'.trace ≡ total wants_topic events + 0)
run-answers_example = run-answers healthy volt_text events at_first refl

answers : (total wants_wifi events ≡ 1) × (total wants_topic events ≡ 2)
answers = (refl, refl)

run-IsFree_example :
    let s' = (run healthy volt_text events at_first).manager in
    (s'.lock ≡ 1) × (discipline 1 s'.trace ≡ some false)
run-IsFree_example = run-IsFree healthy volt_text 1 events at_first (refl, refl)
