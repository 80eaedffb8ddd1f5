-- ===== src/App/Created.antt =====
-- The tasks that `app_main` (firmware/main/main.c) leaves, by what `xTaskCreate` can create.
use fortunelabs_mainboard_l.Prelude.{
  ℕ, ◌≡◌, refl, ap, ◌∙◌, Bool, true, false, List, [], ◌∷◌, if◌then◌else◌,
}
use fortunelabs_mainboard_l.Prelude.Int.{ℤ}
use fortunelabs_mainboard_l.Prelude.Text.{codes}
use fortunelabs_mainboard_l.Platform.{Platform}
use fortunelabs_mainboard_l.Queues.{QueueApi}
use fortunelabs_mainboard_l.Ota.Update.{OtaPlatform}
use fortunelabs_mainboard_l.Network.Manager.{Callback}
use fortunelabs_mainboard_l.App.Hardware.{BringUp, up, aborted, restarted}
use fortunelabs_mainboard_l.App.Startup.{
  TaskSpec, Creates, wanted, spawned, Given, Machine, app_main,
}
use fortunelabs_mainboard_l.App.Spawned.{is_up, app_main-spawned, app_main-outcome}

abbrev pub names : List TaskSpec → List (List ℕ)
names [] = []
names (spec ∷ more) = spec.name ∷ names more

-- Names put on others one by one, if they are accepted.
abbrev pub put_accepted : (List ℕ → Bool) → List (List ℕ) → List (List ℕ) → List (List ℕ)
put_accepted accepts [] before = before
put_accepted accepts (name ∷ more) before =
    put_accepted accepts more (if accepts name then name ∷ before else before)

-- The tasks of a running board, in the order in which they are asked for.
abbrev pub board_tasks : List (List ℕ)
board_tasks =
    codes "task_ota_test"
    ∷ codes "task_sys_sup"
    ∷ codes "task_sensor"
    ∷ codes "task_actuator"
    ∷ codes "task_display"
    ∷ codes "task_status"
    ∷ []

names-if :
    (b : Bool) (spec : TaskSpec) (before : List TaskSpec)
    → names (if b then spec ∷ before else before)
      ≡ (if b then spec.name ∷ names before else names before)
names-if true spec before = refl
names-if false spec before = refl

names-spawned :
    (accepts : List ℕ → Bool) (specs before : List TaskSpec)
    → names (spawned (λ ts spec. accepts spec.name) specs before)
      ≡ put_accepted accepts (names specs) (names before)
names-spawned accepts [] before = refl
names-spawned accepts (spec ∷ more) before =
    names-spawned accepts more (if accepts spec.name then spec ∷ before else before)
    ∙ ap (put_accepted accepts (names more)) (names-if (accepts spec.name) spec before)

names-if_up :
    (o : BringUp) (xs ys : List TaskSpec)
    → names (if is_up o then xs else ys) ≡ (if is_up o then names xs else names ys)
names-if_up up xs ys = refl
names-if_up aborted xs ys = refl
names-if_up restarted xs ys = refl

module _ {F : Type 0} (volts_per_code : ℕ → F) (from_int : ℤ → F) (mul : F → F → F)
    (logs : QueueApi (List ℕ)) (W : Type 0) (P : Platform) (PO : OtaPlatform) (g : Given logs)
    (cb : Callback W) where
  abbrev main :
      Creates
      → Machine volts_per_code from_int mul logs W
      → BringUp × Machine volts_per_code from_int mul logs W
  main creates =
      app_main volts_per_code from_int mul logs W P PO (record g { creates = creates }) cb

  -- `app_main` never notices which of its tasks `xTaskCreate` can create: how it ends does not depend
  -- on it. If every step succeeded, it has asked for the six tasks, the status task last, each
  -- whether or not those before it were created, so that exactly those that can be created, by their
  -- names, are there; if it ends with an abort or a restart, none is.
  pub app_main-tasks :
      (accepts : List ℕ → Bool) (creates : Creates) (m : Machine volts_per_code from_int mul logs W)
      → let given = record g { creates = λ ts spec. accepts spec.name } in
        let other = record g { creates = creates } in
        let (o, m') = app_main volts_per_code from_int mul logs W P PO given cb m in
        (names m'.tasks
          ≡ (if is_up o then put_accepted accepts board_tasks (names m.tasks) else names m.tasks))
        × ((app_main volts_per_code from_int mul logs W P PO other cb m).0 ≡ o)
  app_main-tasks accepts creates m =
      let by_name : Creates = λ ts spec. accepts spec.name in
      let given = record g { creates = by_name } in
      let o = (main by_name m).0 in
      (
        ap names (app_main-spawned volts_per_code from_int mul logs W P PO given cb m)
            ∙ names-if_up o (spawned by_name wanted m.tasks) m.tasks
            ∙ ap (λ (ns : List (List ℕ)). if is_up o then ns else names m.tasks)
                (names-spawned accepts wanted m.tasks),
        app_main-outcome volts_per_code from_int mul logs W P PO given cb creates m,
      )
