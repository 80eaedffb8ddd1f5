-- ===== src/SensorTask/Edges.antt =====
-- What reaches the actuator's queue.
use fortunelabs_mainboard_l.Prelude.{
  append_nil, append_assoc, length-snoc, sym, ℕ, ◌+◌, ◌≤◌, ◌≡◌, refl, ap, ◌∙◌, Bool, true, not,
  ◌&&◌, List, [], ◌∷◌, ◌++◌, Option, none, some, if◌then◌else◌, xor, length, arith, Bool-cases, inl,
  inr,
}
use fortunelabs_mainboard_l.Queues.{QueueApi}
use fortunelabs_mainboard_l.SensorTask.Sampling.{
  DisplayMsg, status_text, State, sample, task_sensor, command_of, app_transport_command,
  handle_all,
}

-- The commands among the payloads, in order.
abbrev pub commands_of : List (List ℕ) → List Bool
commands_of [] = []
commands_of (payload ∷ more) = elim (command_of payload) [
  | none ↦ commands_of more
  | some state ↦ state ∷ commands_of more
]

module _ {R : Type 0} (over : R → Bool) where
  -- The changes of side among the samples, from a side on.
  abbrev pub edges : Bool → List (Option R) → List Bool
  edges last [] = []
  edges last (none ∷ rs) = edges last rs
  edges last (some r ∷ rs) = if xor (over r) last then over r ∷ edges (over r) rs else edges last rs

  -- Every sample that was read is on the given side.
  abbrev pub stays : Bool → List (Option R) → Bool
  stays side [] = true
  stays side (none ∷ rs) = stays side rs
  stays side (some r ∷ rs) = not (xor (over r) side) && stays side rs

module _ (commands : QueueApi Bool) where
  open commands use {Queue, contents, depth, send}

  send_all : List Bool → Queue → Queue
  send_all [] q = q
  send_all (b ∷ bs) q = send_all bs (send b q).1

  contents-send_all :
      (bs : List Bool) (q : Queue)
      → length (contents q) + length bs ≤ depth
      → contents (send_all bs q) ≡ contents q ++ bs
  unfolding send_all
  contents-send_all [] q h = sym (append_nil (contents q))
  contents-send_all (b ∷ bs) q h =
      let (_, more) = commands.send_room b q (omega (arith, h)) in
      contents-send_all bs (send b q).1
        (omega (arith, h, ap length more, length-snoc (contents q) b))
      ∙ ap (λ zs. zs ++ bs) more
      ∙ append_assoc (contents q) (b ∷ []) bs

  handle_all-send_all :
      (payload : List (List ℕ)) (q : Queue)
      → handle_all commands payload q ≡ send_all (commands_of payload) q
  unfolding handle_all app_transport_command send_all
  handle_all-send_all [] q = refl
  handle_all-send_all (d ∷ more) q =
      let ih : (q : Queue) → handle_all commands more q ≡ send_all (commands_of more) q =
        λ q. handle_all-send_all more q in
      go (command_of d) refl ih
    where
      go :
          (c : Option Bool)
          → command_of d ≡ c
          → ((q : Queue) → handle_all commands more q ≡ send_all (commands_of more) q)
          → handle_all commands (d ∷ more) q ≡ send_all (commands_of (d ∷ more)) q
      go none e ih = rw (e, handle_all, app_transport_command, send_all) (ih q)
      go (some b) e ih = rw (e, handle_all, app_transport_command, send_all) (ih (send b q).1)

  -- If the actuator's queue has room for the commands among the payloads, they stand in it in
  -- their order after the payloads were handled, behind what was there, and nothing else does.
  pub handle_all-queued :
      (payloads : List (List ℕ)) (q : Queue)
      → length (contents q) + length (commands_of payloads) ≤ depth
      → contents (handle_all commands payloads q) ≡ contents q ++ commands_of payloads
  handle_all-queued payloads q h =
      ap contents (handle_all-send_all payloads q) ∙ contents-send_all (commands_of payloads) q h

  module _ {R : Type 0} (over : R → Bool) (volt_text : R → List ℕ)
      (display : QueueApi DisplayMsg) where
    task_sensor-send_all :
        (rs : List (Option R)) (s : State commands over volt_text display)
        → (task_sensor commands over volt_text display rs s).actuator
          ≡ send_all (edges over s.last_led_state rs) s.actuator
    unfolding task_sensor sample send_all
    task_sensor-send_all [] s = refl
    task_sensor-send_all (none ∷ rs) s = task_sensor-send_all rs s
    task_sensor-send_all (some r ∷ rs) s =
        let volts = (display.send (record { row = 0; text = volt_text r }) s.messages).1 in
        let seen : State commands over volt_text display = record s {
          mailbox = some r;
          messages = volts;
        } in
        let changed : State commands over volt_text display = record seen {
          last_led_state = over r;
          actuator = (send (over r) s.actuator).1;
          messages = (display.send (record { row = 2; text = status_text (over r) }) volts).1;
        } in
        elim (Bool-cases (xor (over r) s.last_led_state)) [
          | inl e ↦ rw (e, task_sensor, sample) (task_sensor-send_all rs changed)
          | inr e ↦ rw (e, task_sensor, sample) (task_sensor-send_all rs seen)
        ]

    -- If the actuator's queue has room for them, the sensor task sends one command for each sample
    -- that is on the other side of the threshold than the one before it, in order, and no other
    -- command; samples that cannot be read are skipped.
    pub task_sensor-queued :
        (rs : List (Option R)) (s : State commands over volt_text display)
        → length (contents s.actuator) + length (edges over s.last_led_state rs) ≤ depth
        → contents (task_sensor commands over volt_text display rs s).actuator
          ≡ contents s.actuator ++ edges over s.last_led_state rs
    task_sensor-queued rs s h =
        ap contents (task_sensor-send_all rs s)
        ∙ contents-send_all (edges over s.last_led_state rs) s.actuator h

    edges_stay :
        (rs : List (Option R)) (side : Bool) → stays over side rs ≡ true → edges over side rs ≡ []
    edges_stay [] side h = refl
    edges_stay (none ∷ rs) side h = edges_stay rs side h
    edges_stay (some r ∷ rs) side h = ground (arith, h, edges_stay rs side)

    -- A sample that crosses the threshold while the actuator's queue is full changes the side that
    -- the task remembers, but not the queue. Whatever the queue holds afterwards, also if it was
    -- emptied, the task sends no command as long as the samples stay on that side: the one that was
    -- refused is never sent again.
    pub lost_edge :
        (r : R) (rs : List (Option R)) (q : Queue) (s : State commands over volt_text display)
        → xor (over r) s.last_led_state ≡ true
        → depth ≤ length (contents s.actuator)
        → stays over (over r) rs ≡ true
        → let s1 = sample commands over volt_text display (some r) s in
          (s1.last_led_state ≡ over r)
          × (contents s1.actuator ≡ contents s.actuator)
          × ((task_sensor commands over volt_text display rs (record s1 { actuator = q })).actuator
              ≡ q)
    unfolding sample send_all
    lost_edge r rs q s e full same =
        let s1 = sample commands over volt_text display (some r) s in
        let side : s1.last_led_state ≡ over r = rw (e, sample) refl in
        (
          side,
          rw (e, sample) ((commands.send_full (over r) s.actuator full).1),
          task_sensor-send_all rs (record s1 { actuator = q })
              ∙ ap (λ (b : Bool). send_all (edges over b rs) q) side
              ∙ ap (λ bs. send_all bs q) (edges_stay rs (over r) same),
        )
