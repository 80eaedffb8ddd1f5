-- ===== src/Supervisor/Task.antt =====
-- firmware/main/system/system_supervisor.c: the operations of the supervisor and its task.
use fortunelabs_mainboard_l.Prelude.{
  ℕ, zero, suc, ◌+◌, ◌/◌, ◌%◌, ◌^◌, Bool, true, ◌&&◌, ◌||◌, List, [], ◌∷◌, ◌++◌, Option, none, some,
  if◌then◌else◌, ◌==◌, leb, ltb, length,
}
use fortunelabs_mainboard_l.Prelude.Text.{codes, truncate}
use fortunelabs_mainboard_l.Platform.{
  Err, ok, err, invalid_arg, invalid_state, Call, Trace, Platform, watchdog, start, reconfigure,
  add, reset, remove, timer_us, free_heap, min_free_heap, publish, delay_ticks,
}

abbrev pub device_id_max : ℕ
device_id_max = 32

abbrev pub heartbeat_max : ℕ
heartbeat_max = 160

-- `system_supervisor_config_t`; `publishes` is `publish != NULL`.
pub record Config : Type 0 where
  pub wdt_timeout_ms : ℕ
  pub trigger_panic : Bool
  pub heartbeat_period_ms : ℕ
  pub publishes : Bool
  pub device_id : Option (List ℕ)

-- The static variables of the file, and the calls made so far.
pub record State : Type 0 where
  pub wdt_timeout_ms : ℕ
  pub heartbeat_period_ms : ℕ
  pub publishes : Bool
  pub device_id : List ℕ
  pub initialized : Bool
  pub trace : Trace

abbrev pub log_call : Call → State → State
log_call c s = record s { trace = c ∷ s.trace }

-- The decimal digits of a number, by `%lu` and `%llu`; 20 digits hold every 64-bit number.
abbrev pub digits : ℕ → ℕ → List ℕ → List ℕ
digits zero n rest = rest
digits (suc fuel) n rest =
    let more = digits fuel (n / 10) ((0x30 + n % 10) ∷ rest) in
    if ltb n 10 then (0x30 + n) ∷ rest else more

abbrev pub decimal : ℕ → List ℕ
decimal n = digits 20 n []

-- The text that `build_heartbeat` prints.
abbrev pub heartbeat_text : List ℕ → ℕ → ℕ → ℕ → List ℕ
heartbeat_text id uptime free least =
    codes "{\"device_id\":\""
    ++ id
    ++ codes "\",\"uptime_s\":"
    ++ decimal uptime
    ++ codes ",\"free_heap\":"
    ++ decimal free
    ++ codes ",\"min_free_heap\":"
    ++ decimal least
    ++ codes "}"

-- The feed interval that `task_supervisor` computes.
unfoldable pub tick_ms : State → ℕ
tick_ms s =
    let half = s.wdt_timeout_ms / 2 in
    let tick =
      if half == 0 || ltb s.heartbeat_period_ms half then s.heartbeat_period_ms else half in
    if tick == 0 then 1000 else tick

module _ (P : Platform) where
  open P use {status, value, ticks}

  -- `build_heartbeat`: the payload, if it is not empty and fits its buffer with a NUL.
  unfoldable pub build_heartbeat : State → Option (List ℕ) × State
  build_heartbeat s =
      let s1 = log_call timer_us s in
      let s2 = log_call free_heap s1 in
      let s3 = log_call min_free_heap s2 in
      let text =
        heartbeat_text s.device_id (value s.trace timer_us / 1000000) (value s1.trace free_heap)
          (value s2.trace min_free_heap) in
      (if ltb 0 (length text) && ltb (length text) heartbeat_max then some text else none, s3)

  -- `esp_task_wdt_init`, and `esp_task_wdt_reconfigure` if the watchdog runs already.
  unfoldable pub start_watchdog : ℕ → Bool → Trace → Err × Trace
  start_watchdog timeout_ms panic t =
      let first : Call = watchdog (start timeout_ms panic) in
      let again : Call = watchdog (reconfigure timeout_ms panic) in
      elim (status t first) [
        | err invalid_state ↦ (status (first ∷ t) again, again ∷ first ∷ t)
        | r ↦ (r, first ∷ t)
      ]

  -- `system_supervisor_init`; `none` is NULL.
  unfoldable pub init : Option Config → State → Err × State
  init none s = (err invalid_arg, s)
  init (some cfg) s =
      if cfg.wdt_timeout_ms == 0
      then (err invalid_arg, s)
      else (let (r, t) = start_watchdog cfg.wdt_timeout_ms cfg.trigger_panic s.trace in
          elim r [
            | err e ↦ (err e, record s { trace = t })
            | ok ↦ (
              ok,
              record {
                wdt_timeout_ms = cfg.wdt_timeout_ms;
                heartbeat_period_ms = cfg.heartbeat_period_ms;
                publishes = cfg.publishes;
                device_id =
                    truncate device_id_max
                      (elim cfg.device_id [ none ↦ codes "unknown" | some id ↦ id ]);
                initialized = true;
                trace = t;
              },
            )
          ])

  -- `system_supervisor_task_register`, `system_supervisor_task_feed`,
  -- `system_supervisor_task_unregister`
  unfoldable pub task_register : State → Err × State
  task_register s = (status s.trace (watchdog add), log_call (watchdog add) s)

  unfoldable pub task_feed : State → Err × State
  task_feed s = (status s.trace (watchdog reset), log_call (watchdog reset) s)

  unfoldable pub task_unregister : State → Err × State
  task_unregister s = (status s.trace (watchdog remove), log_call (watchdog remove) s)

  -- The heartbeat of one round of the loop; an error of the sink is only logged.
  unfoldable pub send_heartbeat : State → State
  send_heartbeat s =
      let (payload, s1) = build_heartbeat s in
      elim payload [
        | none ↦ s1
        | some text ↦ if s1.publishes then log_call (publish text) s1 else s1
      ]

  -- One round of the loop of `task_supervisor`, with `since_publish_ms` before and after it.
  unfoldable pub round : ℕ → ℕ → State → ℕ × State
  round tick since s =
      let s1 = (task_feed s).1 in
      let since1 = (since + tick) % 2 ^ 32 in
      let beat = send_heartbeat s1 in
      let due = leb s1.heartbeat_period_ms since1 in
      (if due then 0 else since1, log_call (delay_ticks (ticks tick)) (if due then beat else s1))

  -- `n` rounds of the loop.
  unfoldable pub rounds : ℕ → ℕ → ℕ → State → ℕ × State
  rounds zero tick since s = (since, s)
  rounds (suc n) tick since s = let (since1, s1) = round tick since s in rounds n tick since1 s1

  -- `task_supervisor`, up to `n` rounds; an error of the registration is only logged.
  unfoldable pub task_supervisor : ℕ → State → ℕ × State
  task_supervisor n s = rounds n (tick_ms s) s.heartbeat_period_ms (task_register s).1
