-- ===== src/SensorTask/Sampling.antt =====
-- firmware/main/tasks/task_sensor.c: a round of the sensor task; firmware/main/main.c:
-- `app_transport_command`. The reading, its comparison with the threshold (2.5 V) and the text that
-- is printed for it are parameters, since the numbers are floating-point.
use fortunelabs_mainboard_l.Prelude.{
  ℕ, Bool, true, false, List, [], ◌∷◌, Option, none, some, if◌then◌else◌, xor,
}
use fortunelabs_mainboard_l.Prelude.Text.{codes, eq_bytes}
use fortunelabs_mainboard_l.Queues.{QueueApi}

-- `display_msg_t`
pub record DisplayMsg : Type 0 where
  pub row : ℕ
  pub text : List ℕ

abbrev pub status_text : Bool → List ℕ
status_text true = codes "OVER THRESHOLD!"
status_text false = codes "SYSTEM OK"

-- `app_transport_command`: the state that a payload asks for, if it is one of the two commands.
unfoldable pub command_of : List ℕ → Option Bool
command_of payload =
    if eq_bytes payload (codes "ON")
    then some true
    else (if eq_bytes payload (codes "OFF") then some false else none)

module _ (commands : QueueApi Bool) where
  unfoldable pub app_transport_command : List ℕ → commands.Queue → commands.Queue
  app_transport_command payload q = elim (command_of payload) [
    | none ↦ q
    | some state ↦ (commands.send state q).1
  ]

  unfoldable pub handle_all : List (List ℕ) → commands.Queue → commands.Queue
  handle_all [] q = q
  handle_all (payload ∷ more) q = handle_all more (app_transport_command payload q)

  module _ {R : Type 0} (over : R → Bool) (volt_text : R → List ℕ)
      (display : QueueApi DisplayMsg) where
    -- The variables of the task and the three queues; `mailbox` is the queue of depth 1 that
    -- `xQueueOverwrite` writes.
    pub record State : Type 0 where
      pub last_led_state : Bool
      pub mailbox : Option R
      pub messages : display.Queue
      pub actuator : commands.Queue

    -- The round of a sample: `none` is a read that fails.
    unfoldable pub sample : Option R → State → State
    sample none s = s
    sample (some r) s =
        let volts = (display.send (record { row = 0; text = volt_text r }) s.messages).1 in
        let seen = record s { mailbox = some r; messages = volts } in
        if xor (over r) s.last_led_state
        then record seen {
          last_led_state = over r;
          actuator = (commands.send (over r) s.actuator).1;
          messages = (display.send (record { row = 2; text = status_text (over r) }) volts).1;
        }
        else seen

    -- The loop of `task_sensor`.
    unfoldable pub task_sensor : List (Option R) → State → State
    task_sensor [] s = s
    task_sensor (r ∷ rs) s = task_sensor rs (sample r s)
