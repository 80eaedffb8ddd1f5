-- ===== src/App/Accounts.antt =====
-- The accounts of the actuator's and the display's queue, in any interleaving of the tasks.
use fortunelabs_mainboard_l.Prelude.{
  ℕ, ◌≡◌, refl, sym, ap, ◌∙◌, Bool, List, [], ◌∷◌, ◌++◌, none, some, xor, append_nil, append_assoc,
  Bool-cases, Option-cases, ◌⊎◌, inl, inr, arith,
}
use fortunelabs_mainboard_l.Queues.{QueueApi, taken_in, contents-send}
use fortunelabs_mainboard_l.SensorTask.Sampling.{
  DisplayMsg, status_text, command_of, app_transport_command, sample,
}
use fortunelabs_mainboard_l.Outputs.Contract.{OutputDriver}
use fortunelabs_mainboard_l.Outputs.ActuatorTask.{task_actuator}
use fortunelabs_mainboard_l.Ssd1306.Task.{DisplayDriver, task_display}
use fortunelabs_mainboard_l.App.Traffic.{
  messages_of, Step, sampled, commanded, posted, actuated, drawn, System, actuate, draw, step, run,
  commands_in, commands_out, sample_in, messages_in, messages_out, along,
}

List-cases : {A : Type 0} (xs : List A) → (xs ≡ []) ⊎ ((x : A) × (rest : List A) × (xs ≡ x ∷ rest))
List-cases [] = inl refl
List-cases (x ∷ xs) = inr (x, xs, refl)

module _ {R : Type 0} (commands : QueueApi Bool) (display : QueueApi DisplayMsg) (over : R → Bool)
    (volt_text : R → List ℕ) (out : OutputDriver) (panel : DisplayDriver) where
  abbrev S : Type 0
  S = System commands display over volt_text out panel

  abbrev pub next : Step R → S → S
  next = step commands display over volt_text out panel

  abbrev pub runs : List (Step R) → S → S
  runs = run commands display over volt_text out panel

  abbrev pub through : {A : Type 0} → (Step R → S → List A) → List (Step R) → S → List A
  through = along commands display over volt_text out panel

  -- What steps do to a list, of which each keeps the account.
  pub through-account :
      {A : Type 0} (held : S → List A) (put take : Step R → S → List A)
      → ((a : Step R) (s : S) → held s ++ put a s ≡ take a s ++ held (next a s))
      → (as' : List (Step R)) (s : S)
      → held s ++ through put as' s ≡ through take as' s ++ held (runs as' s)
  unfolding run along
  through-account held put take one [] s = append_nil (held s)
  through-account held put take one (a ∷ as') s =
      let s1 : S = next a s in
      sym (append_assoc (held s) (put a s) (through put as' s1))
      ∙ ap (λ xs. xs ++ through put as' s1) (one a s)
      ∙ append_assoc (take a s) (held s1) (through put as' s1)
      ∙ ap (λ xs. take a s ++ xs) (through-account held put take one as' s1)
      ∙ sym (append_assoc (take a s) (through take as' s1) (held (runs as' s1)))

  abbrev pub commands_held : S → List Bool
  commands_held s = commands.contents s.sensor.actuator

  abbrev pub messages_held : S → List DisplayMsg
  messages_held s = display.contents s.sensor.messages

  draw-commands :
      (s : S) → commands_held (draw commands display over volt_text out panel s) ≡ commands_held s
  unfolding draw
  draw-commands s = ground arith

  actuate-messages :
      (s : S)
      → messages_held (actuate commands display over volt_text out panel s) ≡ messages_held s
  unfolding actuate
  actuate-messages s = ground arith

  actuate-account :
      (s : S)
      → commands_held s
        ≡ commands_out commands display over volt_text out panel actuated s
          ++ commands_held (actuate commands display over volt_text out panel s)
  unfolding actuate
  actuate-account s = elim (List-cases (commands_held s)) [
    | inl e ↦ ground (arith, commands.receive_empty s.sensor.actuator e)
    | inr (b, rest, e) ↦ ground (arith, e, commands.receive_next s.sensor.actuator b rest e)
  ]

  draw-account :
      (s : S)
      → messages_held s
        ≡ messages_out commands display over volt_text out panel drawn s
          ++ messages_held (draw commands display over volt_text out panel s)
  unfolding draw
  draw-account s = elim (List-cases (messages_held s)) [
    | inl e ↦ ground (arith, display.receive_empty s.sensor.messages e)
    | inr (m, rest, e) ↦ ground (arith, e, display.receive_next s.sensor.messages m rest e)
  ]

  pub commands-account :
      (a : Step R) (s : S)
      → commands_held s ++ commands_in commands display over volt_text out panel a s
        ≡ commands_out commands display over volt_text out panel a s ++ commands_held (next a s)
  unfolding sample app_transport_command
  commands-account (sampled none) s = append_nil (commands_held s)
  commands-account (sampled (some r)) s = elim (Bool-cases (xor (over r) s.sensor.last_led_state)) [
    | inl e ↦ ground (arith, e, contents-send commands (over r) s.sensor.actuator)
    | inr e ↦ ground (arith, e, append_nil (commands_held s))
  ]
  commands-account (commanded payload) s = elim (Option-cases (command_of payload)) [
    | inl e ↦ ground (arith, e, append_nil (commands_held s))
    | inr (b, e) ↦ ground (arith, e, contents-send commands b s.sensor.actuator)
  ]
  commands-account (posted m) s = append_nil (commands_held s)
  commands-account actuated s = append_nil (commands_held s) ∙ actuate-account s
  commands-account drawn s = append_nil (commands_held s) ∙ sym (draw-commands s)

  sample-messages :
      (r : R) (s : S)
      → messages_held s ++ sample_in commands display over volt_text out panel r s
        ≡ messages_held (next (sampled (some r)) s)
  unfolding sample
  sample-messages r s =
      let q = s.sensor.messages in
      let volts : DisplayMsg = record { row = 0; text = volt_text r } in
      let state : DisplayMsg = record { row = 2; text = status_text (over r) } in
      let q1 = (display.send volts q).1 in
      let first : display.contents q1 ≡ display.contents q ++ taken_in display volts q =
        contents-send display volts q in
      elim (Bool-cases (xor (over r) s.sensor.last_led_state)) [
        | inl e ↦ rw e (
            sym (
              append_assoc (display.contents q) (taken_in display volts q)
                (taken_in display state q1))
            ∙ ap (λ xs. xs ++ taken_in display state q1) (sym first)
            ∙ sym (contents-send display state q1))
        | inr e ↦ rw e (
            ap (λ xs. display.contents q ++ xs) (append_nil (taken_in display volts q)) ∙ sym first)
      ]

  pub messages-account :
      (a : Step R) (s : S)
      → messages_held s ++ messages_in commands display over volt_text out panel a s
        ≡ messages_out commands display over volt_text out panel a s ++ messages_held (next a s)
  unfolding sample
  messages-account (sampled none) s = append_nil (messages_held s)
  messages-account (sampled (some r)) s = sample-messages r s
  messages-account (commanded payload) s = append_nil (messages_held s)
  messages-account (posted m) s = sym (contents-send display m s.sensor.messages)
  messages-account actuated s = append_nil (messages_held s) ∙ sym (actuate-messages s)
  messages-account drawn s = append_nil (messages_held s) ∙ draw-account s

  task_actuator-append :
      (xs ys : List Bool) (d : out.State)
      → task_actuator out (xs ++ ys) d ≡ task_actuator out ys (task_actuator out xs d)
  unfolding task_actuator
  task_actuator-append [] ys d = refl
  task_actuator-append (x ∷ xs) ys d = task_actuator-append xs ys (out.set 0 x d).1

  task_display-append :
      (xs ys : List DisplayMsg) (d : panel.State)
      → task_display panel (messages_of (xs ++ ys)) d
        ≡ task_display panel (messages_of ys) (task_display panel (messages_of xs) d)
  unfolding task_display
  task_display-append [] ys d = refl
  task_display-append (x ∷ xs) ys d =
      task_display-append xs ys (panel.show_text x.row (some x.text) d).1

  step-receivers :
      (a : Step R) (s : S)
      → ((next a s).actuator
          ≡ task_actuator out
              (commands_out commands display over volt_text out panel a s)
              s.actuator)
        × ((next a s).screen
            ≡ task_display panel
                (messages_of (messages_out commands display over volt_text out panel a s))
                s.screen)
  unfolding actuate draw task_actuator task_display
  step-receivers (sampled r) s = (refl, refl)
  step-receivers (commanded payload) s = (refl, refl)
  step-receivers (posted m) s = (refl, refl)
  step-receivers actuated s = ground arith
  step-receivers drawn s = ground arith

  -- What was taken out of the queues in a run, in order.
  abbrev pub commands_taken : List (Step R) → S → List Bool
  commands_taken = through (commands_out commands display over volt_text out panel)

  abbrev pub commands_sent : List (Step R) → S → List Bool
  commands_sent = through (commands_in commands display over volt_text out panel)

  abbrev pub messages_taken : List (Step R) → S → List DisplayMsg
  messages_taken = through (messages_out commands display over volt_text out panel)

  abbrev pub messages_sent : List (Step R) → S → List DisplayMsg
  messages_sent = through (messages_in commands display over volt_text out panel)

  pub runs-receivers :
      (as' : List (Step R)) (s : S)
      → ((runs as' s).actuator ≡ task_actuator out (commands_taken as' s) s.actuator)
        × ((runs as' s).screen ≡ task_display panel (messages_of (messages_taken as' s)) s.screen)
  unfolding run along task_actuator task_display
  runs-receivers [] s = (refl, refl)
  runs-receivers (a ∷ as') s =
      let s1 : S = next a s in
      let (act1, scr1) = step-receivers a s in
      let (act2, scr2) = runs-receivers as' s1 in
      (
        act2
            ∙ ap (task_actuator out (commands_taken as' s1)) act1
            ∙ sym (
                task_actuator-append (commands_out commands display over volt_text out panel a s)
                  (commands_taken as' s1) s.actuator),
        scr2
            ∙ ap (task_display panel (messages_of (messages_taken as' s1))) scr1
            ∙ sym (
                task_display-append (messages_out commands display over volt_text out panel a s)
                  (messages_taken as' s1) s.screen),
      )
