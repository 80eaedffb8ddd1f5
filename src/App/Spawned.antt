-- ===== src/App/Spawned.antt =====
-- What `app_main` (firmware/main/main.c) leaves when it ends early.
use fortunelabs_mainboard_l.Prelude.{
  ℕ, ◌≡◌, refl, ap, ◌∙◌, Bool, true, false, List, ◌∷◌, if◌then◌else◌, arith,
}
use fortunelabs_mainboard_l.Prelude.Int.{ℤ}
use fortunelabs_mainboard_l.Platform.{Err, ok, err, Platform}
use fortunelabs_mainboard_l.Queues.{QueueApi}
use fortunelabs_mainboard_l.SystemConfig.Store.{SystemConfig}
use fortunelabs_mainboard_l.Ota.Update as Ota
use fortunelabs_mainboard_l.Ota.Update.{
  OtaPlatform, pending_verify, mark_valid, mark_app_valid, state_partition, running_partition,
}
use fortunelabs_mainboard_l.Network.Manager.{Callback}
use fortunelabs_mainboard_l.App.Hardware.{BringUp, up, aborted, restarted, checked}
use fortunelabs_mainboard_l.App.Startup.{
  TaskSpec, Creates, wanted, spawned, Given, and_then, Machine, ask, start_flash, start_store,
  start_hardware, start_transport, start_supervisor, start_log, connect_sink, spawn_tasks,
  confirm_image, with_config, start_services, start_board, app_main,
}

abbrev pub is_up : BringUp → Bool
is_up up = true
is_up _ = false

module _ {S : Type 0} where
  -- The outcome depends only on the outcome of what follows.
  and_then-outcome :
      (x : BringUp × S) (k k' : S → BringUp × S)
      → ((s : S) → (k s).0 ≡ (k' s).0)
      → (and_then x k).0 ≡ (and_then x k').0
  unfolding and_then
  and_then-outcome (up, s) k k' e = e s
  and_then-outcome (aborted, s) k k' e = refl
  and_then-outcome (restarted, s) k k' e = refl

  checked-outcome :
      (x : Err × S) (k k' : S → BringUp × S)
      → ((s : S) → (k s).0 ≡ (k' s).0)
      → (checked x k).0 ≡ (checked x k').0
  unfolding checked
  checked-outcome (ok, s) k k' e = e s
  checked-outcome (err c, s) k k' e = refl

module _ {S A : Type 0} (f : S → A) (v : A) where
  -- What no step changes.
  and_then-kept :
      (x : BringUp × S) (k : S → BringUp × S)
      → f x.1 ≡ v
      → ((s : S) → f s ≡ v → f (k s).1 ≡ v)
      → f (and_then x k).1 ≡ v
  unfolding and_then
  and_then-kept (up, s) k e step = step s e
  and_then-kept (aborted, s) k e step = e
  and_then-kept (restarted, s) k e step = e

  checked-kept :
      (x : Err × S) (k : S → BringUp × S)
      → f x.1 ≡ v
      → ((s : S) → f s ≡ v → f (k s).1 ≡ v)
      → f (checked x k).1 ≡ v
  unfolding checked
  checked-kept (ok, s) k e step = step s e
  checked-kept (err c, s) k e step = e

  -- What only the last step changes: whether it did is seen by the outcome.
  module _ (w : A) where
    abbrev Ends : BringUp × S → Type 0
    Ends x = f x.1 ≡ (if is_up x.0 then w else v)

    and_then-Ends :
        (x : BringUp × S) (k : S → BringUp × S)
        → f x.1 ≡ v
        → ((s : S) → f s ≡ v → Ends (k s))
        → Ends (and_then x k)
    unfolding and_then
    and_then-Ends (up, s) k e step = step s e
    and_then-Ends (aborted, s) k e step = e
    and_then-Ends (restarted, s) k e step = e

    checked-Ends :
        (x : Err × S) (k : S → BringUp × S)
        → f x.1 ≡ v
        → ((s : S) → f s ≡ v → Ends (k s))
        → Ends (checked x k)
    unfolding checked
    checked-Ends (ok, s) k e step = step s e
    checked-Ends (err c, s) k e step = e

module _ {F : Type 0} (volts_per_code : ℕ → F) (from_int : ℤ → F) (mul : F → F → F)
    (logs : QueueApi (List ℕ)) (W : Type 0) (P : Platform) where
  abbrev M : Type 0
  M = Machine volts_per_code from_int mul logs W

  start_flash-tasks :
      (m : M) → (start_flash volts_per_code from_int mul logs W P m).1.tasks ≡ m.tasks
  unfolding start_flash checked ask
  start_flash-tasks m = ground arith

  start_transport-kept :
      (cb : Callback W) (cfg : SystemConfig) (m : M)
      → let m' = (start_transport volts_per_code from_int mul logs W P cb cfg m).1 in
        (m'.tasks ≡ m.tasks) × (m'.ota ≡ m.ota)
  unfolding start_transport checked
  start_transport-kept cb cfg m = ground arith

  module _ (PO : OtaPlatform) (g : Given logs) (cb : Callback W) where
    abbrev board : SystemConfig → M → BringUp × M
    board = start_board volts_per_code from_int mul logs W P PO g cb

    abbrev pub confirm : M → M
    confirm = confirm_image volts_per_code from_int mul logs W P PO

    confirm-tasks : (m : M) → (confirm m).tasks ≡ m.tasks
    unfolding confirm_image
    confirm-tasks m = ground arith

    start_board-tasks :
        (ts : List TaskSpec) (cfg : SystemConfig) (m : M)
        → m.tasks ≡ ts
        → Ends (λ (x : M). x.tasks) ts (spawned g.creates wanted ts) (board cfg m)
    unfolding start_board start_hardware start_services connect_sink start_supervisor spawn_tasks
    start_board-tasks ts cfg m e =
        let f : M → List TaskSpec = λ x. x.tasks in
        let w = spawned g.creates wanted ts in
        and_then-Ends f ts w _ _ (confirm-tasks m ∙ e) (λ m1 e1.
          and_then-Ends f ts w _ _ ((start_transport-kept cb cfg m1).0 ∙ e1) (λ m2 e2.
            checked-Ends f ts w _ _ e2
              (λ m3 e3. checked-Ends f ts w _ _ e3 (λ m4 e4. ap (spawned g.creates wanted) e4))))

    pub app_main-spawned :
        (m : M)
        → let (o, m') = app_main volts_per_code from_int mul logs W P PO g cb m in
          m'.tasks ≡ (if is_up o then spawned g.creates wanted m.tasks else m.tasks)
    unfolding app_main start_log start_store with_config
    app_main-spawned m =
        let f : M → List TaskSpec = λ x. x.tasks in
        let ts = m.tasks in
        let w = spawned g.creates wanted ts in
        and_then-Ends f ts w _ _ (start_flash-tasks m) (λ m1 e1.
          checked-Ends f ts w _ _ e1 (λ m2 e2.
            checked-Ends f ts w _ _ e2
              (λ m3 e3. checked-Ends f ts w _ _ e3 (λ m4 e4. start_board-tasks ts _ m4 e4))))

    start_board-outcome :
        (creates : Creates) (cfg : SystemConfig) (m : M)
        → (start_board volts_per_code from_int mul logs W P PO
            (record g { creates = creates })
            cb
            cfg
            m).0
          ≡ (board cfg m).0
    unfolding start_board start_services
    start_board-outcome creates cfg m = and_then-outcome _ _ _ (λ m1.
        and_then-outcome _ _ _
          (λ m2. checked-outcome _ _ _ (λ m3. checked-outcome _ _ _ (λ m4. refl))))

    pub app_main-outcome :
        (creates : Creates) (m : M)
        → (app_main volts_per_code from_int mul logs W P PO (record g { creates = creates }) cb m).0
          ≡ (app_main volts_per_code from_int mul logs W P PO g cb m).0
    unfolding app_main with_config
    app_main-outcome creates m = and_then-outcome _ _ _ (λ m1. checked-outcome _ _ _ (λ m2.
        checked-outcome _ _ _
          (λ m3. checked-outcome _ _ _ (λ m4. start_board-outcome creates _ m4))))

    confirm-marked :
        (m : M)
        → (pending_verify PO m.ota).0 ≡ true
        → (confirm m).ota ≡ mark_app_valid ∷ (pending_verify PO m.ota).1
    unfolding confirm_image mark_valid
    confirm-marked m p = ground (arith, p)

    -- An image that awaits its confirmation is marked valid by the steps of `app_main` from the check
    -- on, however they end: also if the bus, a driver or the transport does not start, and the board
    -- aborts or restarts.
    pub start_board-confirms :
        (cfg : SystemConfig) (m : M)
        → (pending_verify PO m.ota).0 ≡ true
        → (start_board volts_per_code from_int mul logs W P PO g cb cfg m).1.ota
          ≡ mark_app_valid ∷ (pending_verify PO m.ota).1
    unfolding start_board start_hardware start_services connect_sink start_supervisor spawn_tasks
    start_board-confirms cfg m p =
        let f : M → Ota.Trace = λ x. x.ota in
        let t : Ota.Trace = mark_app_valid ∷ (pending_verify PO m.ota).1 in
        and_then-kept f t _ _ (confirm-marked m p) (λ m1 e1.
          and_then-kept f t _ _ ((start_transport-kept cb cfg m1).1 ∙ e1)
            (λ m2 e2. checked-kept f t _ _ e2 (λ m3 e3. checked-kept f t _ _ e3 (λ m4 e4. e4))))
