-- ===== src/SensorTask/Rounds.antt =====
-- firmware/main/tasks/task_sensor.c over a sensor driver: the rounds of the task with the reads that
-- they make.
use fortunelabs_mainboard_l.Prelude.{
  ℕ, zero, suc, ◌+◌, ◌≤◌, ◌≡◌, refl, ap, ◌∙◌, Bool, false, List, [], ◌∷◌, ◌++◌, Option, none,
  if◌then◌else◌, length,
}
use fortunelabs_mainboard_l.Platform.{Err, ok, is_ok}
use fortunelabs_mainboard_l.Queues.{QueueApi}
use fortunelabs_mainboard_l.SensorTask.Drivers.{SensorDriver}
use fortunelabs_mainboard_l.SensorTask.Sampling.{DisplayMsg, State, sample, task_sensor}
use fortunelabs_mainboard_l.SensorTask.Edges.{edges, task_sensor-queued}

module _ {R : Type 0} (drv : SensorDriver R) where
  -- `if (drv->read(&reading) == ESP_OK)`: the sample of a read.
  abbrev pub sample_of : Err × Option R × drv.State → Option R
  sample_of (r, reading, d) = if is_ok r then reading else none

  -- The samples of `n` reads.
  unfoldable pub reads : ℕ → drv.State → List (Option R)
  reads zero d = []
  reads (suc n) d = sample_of (drv.read d) ∷ reads n (drv.read d).2

  module _ (commands : QueueApi Bool) (over : R → Bool) (volt_text : R → List ℕ)
      (display : QueueApi DisplayMsg) where
    abbrev pub Task : Type 0
    Task = State commands over volt_text display

    -- `n` rounds of `task_sensor`.
    unfoldable pub rounds : ℕ → Task × drv.State → Task × drv.State
    rounds zero s = s
    rounds (suc n) (t, d) =
        rounds n (sample commands over volt_text display (sample_of (drv.read d)) t, (drv.read d).2)

    rounds-task_sensor :
        (n : ℕ) (t : Task) (d : drv.State)
        → (rounds n (t, d)).0 ≡ task_sensor commands over volt_text display (reads n d) t
    unfolding rounds task_sensor reads
    rounds-task_sensor zero t d = refl
    rounds-task_sensor (suc n) t d =
        rounds-task_sensor n (sample commands over volt_text display (sample_of (drv.read d)) t)
          (drv.read d).2

    rounds-is_ready :
        (n : ℕ) (t : Task) (d : drv.State) → drv.is_ready (rounds n (t, d)).1 ≡ drv.is_ready d
    unfolding rounds
    rounds-is_ready zero t d = refl
    rounds-is_ready (suc n) t d =
        rounds-is_ready n (sample commands over volt_text display (sample_of (drv.read d)) t)
          (drv.read d).2
        ∙ drv.read_ready d

    rounds-refused :
        (n : ℕ) (t : Task) (d : drv.State) → drv.is_ready d ≡ false → (rounds n (t, d)).0 ≡ t
    unfolding rounds sample
    rounds-refused zero t d e = refl
    rounds-refused (suc n) t d e =
        rw (rounds, drv.read_refused d e) (rounds-refused n t (drv.read d).2 (drv.read_ready d ∙ e))

    -- Over any driver that fills the contract, the rounds of the sensor task send nothing once the
    -- driver was deinitialized. After a start that succeeded, a second start after the rounds does
    -- nothing; and the actuator's queue gets one command for each sample read that is on the other
    -- side of the threshold than the one before it, in order. The queue has room for them.
    pub rounds-driven :
        (n : ℕ) (t : Task) (d : drv.State)
        → let d1 = (drv.init d).1 in
          let (t', d') = rounds n (t, d1) in
          let asked = edges over t.last_led_state (reads n d1) in
          (drv.init d).0 ≡ ok
          → length (commands.contents t.actuator) + length asked ≤ commands.depth
          → ((rounds n (t, drv.deinit d1)).0 ≡ t)
            × (drv.init d' ≡ (ok, d'))
            × (commands.contents t'.actuator ≡ commands.contents t.actuator ++ asked)
    rounds-driven n t d o room =
        let d1 = (drv.init d).1 in
        (
          rounds-refused n t (drv.deinit d1) (drv.deinit_ready d1),
          drv.init_again (rounds n (t, d1)).1 (rounds-is_ready n t d1 ∙ drv.init_ready d o),
          ap (λ (s : Task). commands.contents s.actuator) (rounds-task_sensor n t d1)
              ∙ task_sensor-queued commands over volt_text display (reads n d1) t room,
        )
