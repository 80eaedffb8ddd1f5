-- ===== src/Outputs/ActuatorTask.antt =====
-- firmware/main/tasks/task_actuator.c: the consumer of the actuator queue, over any driver that
-- fills the output contract. The commands are those that the task receives, in order.
use fortunelabs_mainboard_l.Prelude.{
  ◌≡◌, refl, Bool, List, [], ◌∷◌, Option, some, if◌then◌else◌, inl, inr,
}
use fortunelabs_mainboard_l.Platform.{Err, ok, is_ok, valid, Err-cases}
use fortunelabs_mainboard_l.Outputs.Contract.{OutputDriver}

module _ (drv : OutputDriver) where
  open drv use {State, set, get, set_ok, set_err}

  -- The loop of `task_actuator`: the result of each set is ignored, as in the source.
  unfoldable pub task_actuator : List Bool → State → State
  task_actuator [] s = s
  task_actuator (b ∷ bs) s = task_actuator bs (set 0 b s).1

  -- What a read of channel 0 gives after the commands, from what it gave before: the last command
  -- that the driver accepted.
  unfoldable pub last_accepted : List Bool → State → Err × Option Bool → Err × Option Bool
  last_accepted [] s before = before
  last_accepted (b ∷ bs) s before =
      last_accepted bs (set 0 b s).1 (if is_ok (set 0 b s).0 then (ok, some b) else before)

  -- After any commands a read of the actuator gives the last command that the driver accepted, or
  -- what it gave before if there was none.
  pub task_actuator-last_accepted :
      (bs : List Bool) (s : State)
      → get 0 valid (task_actuator bs s) ≡ last_accepted bs s (get 0 valid s)
  unfolding task_actuator last_accepted
  task_actuator-last_accepted [] s = refl
  task_actuator-last_accepted (b ∷ bs) s = elim (Err-cases (set 0 b s).0) [
    | inl e ↦ rw (e, ← set_ok 0 b s e) (task_actuator-last_accepted bs (set 0 b s).1)
    | inr (c, e) ↦ rw (e, ← set_err 0 0 b s (rw e)) (task_actuator-last_accepted bs (set 0 b s).1)
  ]
