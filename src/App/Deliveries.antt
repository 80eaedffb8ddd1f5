-- ===== src/App/Deliveries.antt =====
-- What the actuator and the panel get of what the tasks, the broker and the update send, in any
-- interleaving of the tasks.
use fortunelabs_mainboard_l.Prelude.{
  ℕ, ◌≡◌, sym, ap, subst, ◌∙◌, ◌≤◌, ◌<◌, ◌+◌, Bool, List, [], ◌++◌, none, append_nil, length,
}
use fortunelabs_mainboard_l.Platform.{Platform, Pointer, ok, valid}
use fortunelabs_mainboard_l.Bus.Traces.{acked}
use fortunelabs_mainboard_l.Queues.{QueueApi}
use fortunelabs_mainboard_l.SensorTask.Sampling.{DisplayMsg}
use fortunelabs_mainboard_l.Outputs.Contract.{OutputDriver}
use fortunelabs_mainboard_l.Outputs.ActuatorTask.{
  task_actuator, last_accepted, task_actuator-last_accepted,
}
use fortunelabs_mainboard_l.Ssd1306.Device.{Config, init_hw}
use fortunelabs_mainboard_l.Ssd1306.Device as Display
use fortunelabs_mainboard_l.Ssd1306.Panel.{Panel, shown}
use fortunelabs_mainboard_l.Ssd1306.Task.{
  DisplayDriver, task_display, ssd1306_driver, row_text, row_byte, transfers, started-row_text,
}
use fortunelabs_mainboard_l.App.Traffic.{
  messages_of, Step, System, commands_in, commands_out, messages_in, messages_out,
}
use fortunelabs_mainboard_l.App.Accounts.{
  runs, commands_held, messages_held, commands_sent, commands_taken, messages_sent, messages_taken,
  through-account, commands-account, messages-account, runs-receivers,
}

-- With nothing before and nothing left, what was taken is what was sent.
all_taken :
    {A : Type 0} {before sent taken left : List A}
    → before ++ sent ≡ taken ++ left
    → before ≡ []
    → left ≡ []
    → taken ≡ sent
all_taken {sent} {taken} e none_before none_left =
    sym (append_nil taken)
    ∙ sym (ap (λ xs. taken ++ xs) none_left)
    ∙ sym e
    ∙ ap (λ xs. xs ++ sent) none_before

module _ {R : Type 0} (commands : QueueApi Bool) (display : QueueApi DisplayMsg) (over : R → Bool)
    (volt_text : R → List ℕ) (out : OutputDriver) (panel : DisplayDriver) where
  abbrev S : Type 0
  S = System commands display over volt_text out panel

  -- In any interleaving of the sensor task, the broker's commands, the update, the actuator task
  -- and the display task, what is taken out of each queue is a prefix of what was in it and then of
  -- what it took in, in order, and the rest still stands in it: nothing is lost after it was queued,
  -- doubled or reordered. The actuator and the display are in the state that their tasks reach with
  -- exactly what was taken.
  pub runs-delivers :
      (as' : List (Step R)) (s : S)
      → let s' = runs commands display over volt_text out panel as' s in
        let orders = commands_taken commands display over volt_text out panel as' s in
        let lines = messages_taken commands display over volt_text out panel as' s in
        (commands_held commands display over volt_text out panel s
            ++ commands_sent commands display over volt_text out panel as' s
          ≡ orders ++ commands_held commands display over volt_text out panel s')
        × (messages_held commands display over volt_text out panel s
              ++ messages_sent commands display over volt_text out panel as' s
            ≡ lines ++ messages_held commands display over volt_text out panel s')
        × (s'.actuator ≡ task_actuator out orders s.actuator)
        × (s'.screen ≡ task_display panel (messages_of lines) s.screen)
  runs-delivers as' s =
      let (act, scr) = runs-receivers commands display over volt_text out panel as' s in
      (
        through-account commands display over volt_text out panel
            (commands_held commands display over volt_text out panel)
            (commands_in commands display over volt_text out panel)
            (commands_out commands display over volt_text out panel)
            (commands-account commands display over volt_text out panel) as' s,
        through-account commands display over volt_text out panel
            (messages_held commands display over volt_text out panel)
            (messages_in commands display over volt_text out panel)
            (messages_out commands display over volt_text out panel)
            (messages-account commands display over volt_text out panel) as' s,
        act,
        scr,
      )

  -- If the actuator's queue is empty at the start and at the end of a run, a read of the actuator
  -- gives the last command that its driver accepted of those that the queue took in, whether from
  -- the sensor or from the broker, or what it gave before if there was none.
  pub runs-last_accepted :
      (as' : List (Step R)) (s : S)
      → let s' = runs commands display over volt_text out panel as' s in
        let sent = commands_sent commands display over volt_text out panel as' s in
        commands_held commands display over volt_text out panel s ≡ []
        → commands_held commands display over volt_text out panel s' ≡ []
        → out.get 0 valid s'.actuator
          ≡ last_accepted out sent s.actuator (out.get 0 valid s.actuator)
  runs-last_accepted as' s e e' =
      let (account, _, act, _) = runs-delivers as' s in
      let same = all_taken account e e' in
      ap (out.get 0 valid) (act ∙ ap (λ bs. task_actuator out bs s.actuator) same)
      ∙ task_actuator-last_accepted out _ s.actuator

module _ {R : Type 0} (commands : QueueApi Bool) (display : QueueApi DisplayMsg) (over : R → Bool)
    (volt_text : R → List ℕ) (out : OutputDriver) (P : Platform) (first : Panel)
    (beyond : ℕ → ℕ) where
  abbrev panel : DisplayDriver
  panel = ssd1306_driver P beyond

  -- From a display that was started with a width of at least 8 and below 136 on, and with its queue
  -- empty at the start and at the end of a run, each row of the panel shows the last text for it that
  -- the queue took in, from the sensor or from the update, in its first `width / 8` character cells,
  -- and what it showed after the start in its other bytes, if the driver acknowledges every transfer
  -- of these messages.
  pub runs-row_text :
      (q : Pointer) (cfg : Config) (d : Display.State) (as' : List (Step R))
      (s : System commands display over volt_text out panel) (p c : ℕ)
      → let s' = runs commands display over volt_text out panel as' s in
        let sent = messages_of (messages_sent commands display over volt_text out panel as' s) in
        let old = shown P first s.screen in
        s.screen ≡ (init_hw P q cfg d).1
        → (init_hw P q cfg d).0 ≡ ok
        → messages_held commands display over volt_text out panel s ≡ []
        → messages_held commands display over volt_text out panel s' ≡ []
        → 8 ≤ cfg.width
        → cfg.width < 136
        → length (acked P s'.screen.sys.trace)
          ≡ length (acked P s.screen.sys.trace) + transfers sent
        → p < 8
        → c < 128
        → (shown P first s'.screen).ram p c
          ≡ row_byte beyond cfg.width (row_text p sent none) c (old.ram p c)
  runs-row_text q cfg d as' s p c begun o e e' wide narrow full low left =
      let (_, account, _, scr) = runs-delivers commands display over volt_text out panel as' s in
      let same = all_taken account e e' in
      let sent = messages_of (messages_sent commands display over volt_text out panel as' s) in
      let Shows : Display.State → Display.State → Type 0 = λ d0 d1.
        length (acked P d1.sys.trace) ≡ length (acked P d0.sys.trace) + transfers sent
        → (shown P first d1).ram p c
          ≡ row_byte beyond cfg.width (row_text p sent none) c ((shown P first d0).ram p c) in
      subst (Shows s.screen)
        (sym (scr ∙ ap (λ ms. task_display panel (messages_of ms) s.screen) same))
        (subst (λ (d0 : Display.State). Shows d0 (task_display panel sent d0)) (sym begun)
          (λ f. started-row_text P first beyond q cfg d sent p c o wide narrow f low left))
        full
