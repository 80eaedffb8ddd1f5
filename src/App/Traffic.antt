-- ===== src/App/Traffic.antt =====
-- The tasks that share the actuator's and the display's queue, as one system: `task_sensor`, the
-- handler of the broker's commands and the update send, `task_actuator` and `task_display` receive
-- (firmware/main/main.c, firmware/main/tasks, firmware/main/system/system_ota.c). A run is any
-- interleaving of their steps.
use fortunelabs_mainboard_l.Prelude.{
  ℕ, Bool, List, [], ◌∷◌, ◌++◌, Option, none, some, if◌then◌else◌, xor,
}
use fortunelabs_mainboard_l.Queues.{QueueApi, taken_in}
use fortunelabs_mainboard_l.SensorTask.Sampling as Sensor
use fortunelabs_mainboard_l.SensorTask.Sampling.{
  DisplayMsg, status_text, command_of, app_transport_command, sample,
}
use fortunelabs_mainboard_l.Outputs.Contract.{OutputDriver}
use fortunelabs_mainboard_l.Outputs.ActuatorTask.{task_actuator}
use fortunelabs_mainboard_l.Ssd1306.Task.{DisplayDriver, Message, task_display}

abbrev pub message_of : DisplayMsg → Message
message_of m = (m.row, m.text)

abbrev pub messages_of : List DisplayMsg → List Message
messages_of [] = []
messages_of (m ∷ ms) = message_of m ∷ messages_of ms

-- A sample of the sensor task, or a read that fails; a message of the broker; a line of the update
-- for the display; a round of the actuator task and of the display task.
pub data Step (R : Type 0) : Type 0 where
  sampled : Option R → Step R
  commanded : List ℕ → Step R
  posted : DisplayMsg → Step R
  actuated drawn : Step R

module _ {R : Type 0} (commands : QueueApi Bool) (display : QueueApi DisplayMsg) (over : R → Bool)
    (volt_text : R → List ℕ) (out : OutputDriver) (panel : DisplayDriver) where
  pub record System : Type 0 where
    pub sensor : Sensor.State commands over volt_text display
    pub actuator : out.State
    pub screen : panel.State

  -- A round of a task that receives; without a message it waits.
  unfoldable pub actuate : System → System
  actuate s = elim (commands.receive s.sensor.actuator).0 [
    | none ↦ s
    | some b ↦ record s {
      sensor = record (s.sensor) { actuator = (commands.receive s.sensor.actuator).1 };
      actuator = task_actuator out (b ∷ []) s.actuator;
    }
  ]

  unfoldable pub draw : System → System
  draw s = elim (display.receive s.sensor.messages).0 [
    | none ↦ s
    | some m ↦ record s {
      sensor = record (s.sensor) { messages = (display.receive s.sensor.messages).1 };
      screen = task_display panel (message_of m ∷ []) s.screen;
    }
  ]

  abbrev pub step : Step R → System → System
  step (sampled r) s = record s { sensor = sample commands over volt_text display r s.sensor }
  step (commanded payload) s = record s {
    sensor = record (s.sensor) {
      actuator = app_transport_command commands payload s.sensor.actuator;
    };
  }
  step (posted m) s = record s {
    sensor = record (s.sensor) { messages = (display.send m s.sensor.messages).1 };
  }
  step actuated s = actuate s
  step drawn s = draw s

  unfoldable pub run : List (Step R) → System → System
  run [] s = s
  run (a ∷ as') s = run as' (step a s)

  -- The commands that a step puts in the actuator's queue, and those that it takes out.
  abbrev pub asked_in : Option Bool → commands.Queue → List Bool
  asked_in none q = []
  asked_in (some b) q = taken_in commands b q

  abbrev pub commands_in : Step R → System → List Bool
  commands_in (sampled (some r)) s =
      if xor (over r) s.sensor.last_led_state
      then taken_in commands (over r) s.sensor.actuator
      else []
  commands_in (commanded payload) s = asked_in (command_of payload) s.sensor.actuator
  commands_in _ s = []

  abbrev pub commands_out : Step R → System → List Bool
  commands_out actuated s = elim (commands.receive s.sensor.actuator).0 [
    | none ↦ []
    | some b ↦ b ∷ []
  ]
  commands_out _ s = []

  -- The messages that a step puts in the display's queue, and those that it takes out.
  abbrev pub sample_in : R → System → List DisplayMsg
  sample_in r s =
      let volts : DisplayMsg = record { row = 0; text = volt_text r } in
      let state : DisplayMsg = record { row = 2; text = status_text (over r) } in
      let q = s.sensor.messages in
      taken_in display volts q
      ++ (if xor (over r) s.sensor.last_led_state
          then taken_in display state (display.send volts q).1
          else [])

  abbrev pub messages_in : Step R → System → List DisplayMsg
  messages_in (sampled (some r)) s = sample_in r s
  messages_in (posted m) s = taken_in display m s.sensor.messages
  messages_in _ s = []

  abbrev pub messages_out : Step R → System → List DisplayMsg
  messages_out drawn s = elim (display.receive s.sensor.messages).0 [ none ↦ [] | some m ↦ m ∷ [] ]
  messages_out _ s = []

  -- What the steps of a run do, in order.
  unfoldable pub along : {A : Type 0} → (Step R → System → List A) → List (Step R) → System → List A
  along f [] s = []
  along f (a ∷ as') s = f a s ++ along f as' (step a s)
