-- ===== src/Tests/TrafficTests.antt =====
-- Interleavings of the tasks around the actuator's and the display's queue.
use fortunelabs_mainboard_l.Prelude.{
  ℕ, ◌≡◌, refl, Bool, false, List, [], ◌∷◌, ◌++◌, none, some, arith,
}
use fortunelabs_mainboard_l.Prelude.Text.{codes}
use fortunelabs_mainboard_l.Platform.{valid}
use fortunelabs_mainboard_l.Queues.{QueueApi}
use fortunelabs_mainboard_l.Bus.Transfers
use fortunelabs_mainboard_l.Bus.Lifecycle
use fortunelabs_mainboard_l.SensorTask.Sampling.{
  DisplayMsg, sample, app_transport_command, command_of,
}
use fortunelabs_mainboard_l.Outputs.Contract.{OutputDriver}
use fortunelabs_mainboard_l.Outputs.ActuatorTask.{task_actuator, last_accepted}
use fortunelabs_mainboard_l.Outputs.Laws.{actuator_dummy_driver}
use fortunelabs_mainboard_l.Ssd1306.Device.{
  init_hw, send_cmds, clear_hw, clear_pages, show_text_hw, write_page, address_page, send_cmd,
  send_bytes,
}
use fortunelabs_mainboard_l.Ssd1306.Panel.{shown}
use fortunelabs_mainboard_l.Ssd1306.Task.{
  DisplayDriver, ssd1306_driver, task_display, row_text, row_byte,
}
use fortunelabs_mainboard_l.App.Traffic.{
  messages_of, Step, sampled, commanded, posted, actuated, drawn, System, step, actuate, draw,
  along,
}
use fortunelabs_mainboard_l.App.Traffic as Traffic
use fortunelabs_mainboard_l.App.Accounts.{
  runs, commands_held, messages_held, commands_sent, commands_taken, messages_sent, messages_taken,
}
use fortunelabs_mainboard_l.App.Deliveries.{runs-delivers, runs-last_accepted, runs-row_text}
use fortunelabs_mainboard_l.Tests.Boards.{healthy}
use fortunelabs_mainboard_l.Tests.DisplayTests.{noise, beyond, config, before}
use fortunelabs_mainboard_l.Tests.OutputTests.{actuator}
use fortunelabs_mainboard_l.Tests.QueueTests.{list_queue, over, volt_text}

abbrev commands : QueueApi Bool
commands = list_queue Bool 5

abbrev display : QueueApi DisplayMsg
display = list_queue DisplayMsg 10

abbrev out : OutputDriver
out = actuator_dummy_driver healthy

abbrev panel : DisplayDriver
panel = ssd1306_driver healthy beyond

-- The system when its tasks begin.
abbrev idle : System commands display over volt_text out panel
idle = record {
  sensor = record { last_led_state = false; mailbox = none; messages = []; actuator = [] };
  actuator = actuator;
  screen = (init_hw healthy valid config before).1;
}

-- A sample over the threshold, then a command of the broker, while both receivers run.
abbrev traffic : List (Step ℕ)
traffic =
    sampled (some 30)
    ∷ drawn
    ∷ commanded (codes "OFF")
    ∷ actuated
    ∷ posted (record { row = 1; text = codes "A1" })
    ∷ actuated
    ∷ drawn
    ∷ drawn
    ∷ []

runs-delivers_example :
    let s' = runs commands display over volt_text out panel traffic idle in
    let orders = commands_taken commands display over volt_text out panel traffic idle in
    let lines = messages_taken commands display over volt_text out panel traffic idle in
    ([] ++ commands_sent commands display over volt_text out panel traffic idle
      ≡ orders ++ commands_held commands display over volt_text out panel s')
    × ([] ++ messages_sent commands display over volt_text out panel traffic idle
        ≡ lines ++ messages_held commands display over volt_text out panel s')
    × (s'.actuator ≡ task_actuator out orders actuator)
    × (s'.screen ≡ task_display panel (messages_of lines) (init_hw healthy valid config before).1)
runs-delivers_example = runs-delivers commands display over volt_text out panel traffic idle

runs-last_accepted_example :
    let s' = runs commands display over volt_text out panel traffic idle in
    let sent = commands_sent commands display over volt_text out panel traffic idle in
    out.get 0 valid s'.actuator ≡ last_accepted out sent actuator (out.get 0 valid actuator)
unfolding Traffic.run actuate draw sample app_transport_command command_of mathlib.Core.Bool.xor
runs-last_accepted_example =
    runs-last_accepted commands display over volt_text out panel traffic idle refl refl

runs-row_text_example :
    let s' = runs commands display over volt_text out panel traffic idle in
    let sent = messages_of (messages_sent commands display over volt_text out panel traffic idle) in
    (shown healthy noise s'.screen).ram 1 9
    ≡ row_byte beyond 128 (row_text 1 sent none) 9 ((shown healthy noise idle.screen).ram 1 9)
unfolding Traffic.run actuate draw sample app_transport_command command_of along task_display
    init_hw send_cmds clear_hw clear_pages show_text_hw write_page address_page send_cmd send_bytes
    Transfers.write Transfers.transfer_with Transfers.transfer_locked Lifecycle.add_device
    mathlib.Core.Bool.xor
runs-row_text_example =
    runs-row_text commands display over volt_text out healthy noise beyond valid config before
      traffic idle 1 9 refl refl refl refl (omega arith) (omega arith) refl (omega arith)
      (omega arith)
