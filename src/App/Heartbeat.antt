-- ===== src/App/Heartbeat.antt =====
-- firmware/main/tasks/task_status.c: the heartbeat on the status LED, over any driver that fills the
-- output contract.
use fortunelabs_mainboard_l.Prelude.{
  ℕ, zero, suc, ◌+◌, ◌≡◌, refl, ap, ◌∙◌, Bool, true, false, List, ◌∷◌, arith,
}
use fortunelabs_mainboard_l.Platform.{Platform, gpio, set_level, Trace}
use fortunelabs_mainboard_l.Outputs.Contract.{OutputDriver}
use fortunelabs_mainboard_l.Outputs.Laws.{status_led_driver}
use fortunelabs_mainboard_l.Outputs.StatusLed

abbrev pub on_ms : ℕ
on_ms = 60

abbrev pub period_ms : ℕ
period_ms = 2000

-- A wait of the task: `vTaskDelay` of ticks, and `vTaskDelayUntil` a tick count.
pub data Wait : Type 0 where
  delay delay_until : ℕ → Wait

module _ (drv : OutputDriver) (ticks : ℕ → ℕ) where
  open drv use {State, set}

  -- The driver, the variable `last_wake` and the waits, the newest first. A tick count is taken
  -- without its wrap-around.
  pub record Task : Type 0 where
    pub led : State
    pub last_wake : ℕ
    pub waits : List Wait

  -- A round of `task_status`. `vTaskDelayUntil` adds the period to `last_wake`.
  unfoldable pub heartbeat : Task → Task
  heartbeat t =
      let lit = (set 0 true t.led).1 in
      let wake = t.last_wake + ticks period_ms in
      record {
        led = (set 0 false lit).1;
        last_wake = wake;
        waits = delay_until wake ∷ delay (ticks on_ms) ∷ t.waits;
      }

  -- The loop of `task_status`.
  unfoldable pub task_status : ℕ → Task → Task
  task_status zero t = t
  task_status (suc n) t = task_status n (heartbeat t)

-- The levels that `n` flashes drive on the pin of the LED, after others, the newest first.
abbrev pub flashes : ℕ → ℕ → Bool → Trace → Trace
flashes zero pin active_low t = t
flashes (suc n) pin active_low t = flashes n pin active_low (
    gpio (set_level pin (StatusLed.level active_low false))
    ∷ gpio (set_level pin (StatusLed.level active_low true))
    ∷ t)

module _ (P : Platform) where
  -- A round on the status LED.
  heartbeat-led :
      (t : Task (status_led_driver P) P.ticks)
      → t.led.is_initialized ≡ true
      → let led = (heartbeat (status_led_driver P) P.ticks t).led in
        (led.trace ≡ flashes 1 t.led.gpio_num t.led.active_low t.led.trace)
        × (led.gpio_num ≡ t.led.gpio_num)
        × (led.active_low ≡ t.led.active_low)
        × (led.is_initialized ≡ true)
  unfolding heartbeat StatusLed.set
  heartbeat-led t i = ground (arith, i)

  -- On a started status LED the heartbeat drives exactly one flash for each round, on and then off,
  -- whether or not the driver accepts the levels.
  pub task_status-flashes :
      (n : ℕ) (t : Task (status_led_driver P) P.ticks)
      → t.led.is_initialized ≡ true
      → (task_status (status_led_driver P) P.ticks n t).led.trace
        ≡ flashes n t.led.gpio_num t.led.active_low t.led.trace
  unfolding task_status
  task_status-flashes zero t i = refl
  task_status-flashes (suc n) t i =
      let t1 : Task (status_led_driver P) P.ticks = heartbeat (status_led_driver P) P.ticks t in
      let (trace, pin, low, ready) = heartbeat-led t i in
      task_status-flashes n t1 ready
      ∙ ap (λ (p : ℕ). flashes n p t1.led.active_low t1.led.trace) pin
      ∙ ap (λ (b : Bool). flashes n t.led.gpio_num b t1.led.trace) low
      ∙ ap (flashes n t.led.gpio_num t.led.active_low) trace
