-- ===== src/Supervisor/Cadence.antt =====
-- The cadence of the supervisor's feeds and heartbeats.
use fortunelabs_mainboard_l.Prelude.{
  ℕ, zero, suc, ◌+◌, ◌*◌, ◌%◌, ◌^◌, ◌≤◌, ◌<◌, ◌≡◌, refl, [], ◌∷◌, some, leb, arith, Bool-cases, inl,
  inr, ◌∙◌,
}
use fortunelabs_mainboard_l.Platform.{
  ok, Call, Trace, Platform, WatchdogCall, watchdog, reset, free_heap, delay_ticks,
}
use fortunelabs_mainboard_l.Supervisor.Task.{
  Config, State, tick_ms, init, task_feed, task_register, build_heartbeat, send_heartbeat, round,
  rounds, task_supervisor, log_call,
}

abbrev pub feeds_watchdog : WatchdogCall → ℕ → ℕ
feeds_watchdog reset n = suc n
feeds_watchdog _ n = n

abbrev pub feeds_call : Call → ℕ → ℕ
feeds_call (watchdog c) n = feeds_watchdog c n
feeds_call _ n = n

-- How often the watchdog was fed.
abbrev pub feeds : Trace → ℕ
feeds [] = 0
feeds (c ∷ t) = feeds_call c (feeds t)

abbrev pub beats_call : Call → ℕ → ℕ
beats_call free_heap n = suc n
beats_call _ n = n

-- How often a heartbeat was built, by its reading of the free heap.
abbrev pub beats : Trace → ℕ
beats [] = 0
beats (c ∷ t) = beats_call c (beats t)

abbrev pub delayed_call : Call → ℕ → ℕ
delayed_call (delay_ticks k) n = n + k
delayed_call _ n = n

-- How many ticks were waited, by `vTaskDelay`.
abbrev pub delayed : Trace → ℕ
delayed [] = 0
delayed (c ∷ t) = delayed_call c (delayed t)

-- If the watchdog times out after at least 2 ms and the heartbeat period is not 0, the feed
-- interval is not 0, and at most half of the timeout and at most the heartbeat period.
pub tick_ms-IsSafe :
    (s : State)
    → 2 ≤ s.wdt_timeout_ms
    → 1 ≤ s.heartbeat_period_ms
    → (1 ≤ tick_ms s) × (tick_ms s * 2 ≤ s.wdt_timeout_ms) × (tick_ms s ≤ s.heartbeat_period_ms)
unfolding tick_ms
tick_ms-IsSafe s h k = ground (arith, h, k)

module _ (P : Platform) where
  -- With a heartbeat period of 0 the supervisor that `system_supervisor_init` accepted feeds once a
  -- second, whatever the timeout of the watchdog is.
  pub tick_ms_period_0 :
      (cfg : Config) (s : State)
      → cfg.heartbeat_period_ms ≡ 0
      → (init P (some cfg) s).0 ≡ ok
      → (tick_ms (init P (some cfg) s).1 ≡ 1000)
        × ((init P (some cfg) s).1.wdt_timeout_ms ≡ cfg.wdt_timeout_ms)
  unfolding tick_ms init
  tick_ms_period_0 cfg s h e = ground (arith, h, e)

  send_heartbeat-counts :
      (s : State)
      → let s' = send_heartbeat P s in
        (beats s'.trace ≡ beats s.trace + 1)
        × (feeds s'.trace ≡ feeds s.trace)
        × (delayed s'.trace ≡ delayed s.trace)
        × (s'.heartbeat_period_ms ≡ s.heartbeat_period_ms)
  unfolding send_heartbeat build_heartbeat
  send_heartbeat-counts s = ground arith

  -- One round: one feed, and the accounts of the time since the last heartbeat.
  pub record IsRound (n tick since : ℕ) (s : State) (since' : ℕ) (s' : State) : Type 0 where
    pub period : s'.heartbeat_period_ms ≡ s.heartbeat_period_ms
    pub fed : feeds s'.trace ≡ feeds s.trace + n
    pub slept : delayed s'.trace ≡ delayed s.trace + n * P.ticks tick
    pub waited : since' < s.heartbeat_period_ms
    pub not_early :
        since' + beats s'.trace * s.heartbeat_period_ms
        ≤ since + beats s.trace * s.heartbeat_period_ms + n * tick
    pub not_late :
        since + n * tick + beats s.trace * (s.heartbeat_period_ms + tick)
        ≤ since' + beats s'.trace * (s.heartbeat_period_ms + tick)

  round-IsRound :
      (tick since : ℕ) (s : State)
      → 1 ≤ s.heartbeat_period_ms
      → since ≤ s.heartbeat_period_ms
      → s.heartbeat_period_ms + tick < 2 ^ 32
      → let (since', s') = round P tick since s in IsRound 1 tick since s since' s'
  unfolding round task_feed
  round-IsRound tick since s h k w =
      let s1 = log_call (watchdog reset) s in
      let counts = send_heartbeat-counts s1 in
      let small : (since + tick) % 2 ^ 32 ≡ since + tick = omega (arith, k, w) in
      elim (Bool-cases (leb s.heartbeat_period_ms ((since + tick) % 2 ^ 32))) [
        | inl e ↦ rw e (record {
          period = counts.3;
          fed = omega (arith, counts);
          slept = omega (arith, counts);
          waited = omega (arith, h);
          not_early =
              due_early s.heartbeat_period_ms (beats s.trace) counts.0 (ground (arith, e, small));
          not_late = due_late s.heartbeat_period_ms (beats s.trace) counts.0 k;
        })
        | inr e ↦ rw e (record {
          period = refl;
          fed = omega arith;
          slept = omega arith;
          waited = ground (arith, e);
          not_early = omega (arith, small);
          not_late = omega (arith, small);
        })
      ]
    where
      due_early :
          (p b : ℕ) {b' : ℕ} → b' ≡ b + 1 → p ≤ since + tick → 0 + b' * p ≤ since + b * p + 1 * tick
      due_early p b e f = rw e (omega (arith, f))

      due_late :
          (p b : ℕ) {b' : ℕ}
          → b' ≡ b + 1
          → since ≤ p
          → since + 1 * tick + b * (p + tick) ≤ 0 + b' * (p + tick)
      due_late p b e f = rw e (omega (arith, f))

  IsRound-trans :
      {n tick since : ℕ} {s : State} {since1 : ℕ} {s1 : State} {since2 : ℕ} {s2 : State}
      → IsRound 1 tick since s since1 s1
      → IsRound n tick since1 s1 since2 s2
      → IsRound (suc n) tick since s since2 s2
  IsRound-trans {n} {tick} a b = record {
    period = b.period ∙ a.period;
    fed = omega (arith, a.fed, b.fed);
    slept = omega (arith, a.slept, b.slept);
    waited = rw (← a.period) (b.waited);
    not_early = omega (arith, a.not_early, rw (a.period) at b.not_early);
    not_late = omega (arith, a.not_late, rw (a.period) at b.not_late);
  }

  rounds-IsRound :
      (n tick since : ℕ) (s : State)
      → 1 ≤ s.heartbeat_period_ms
      → since ≤ s.heartbeat_period_ms
      → s.heartbeat_period_ms + tick < 2 ^ 32
      → let (since', s') = rounds P (suc n) tick since s in IsRound (suc n) tick since s since' s'
  unfolding rounds
  rounds-IsRound zero tick since s h k w = round-IsRound tick since s h k w
  rounds-IsRound (suc n) tick since s h k w =
      let a = round-IsRound tick since s h k w in
      let (since1, s1) = round P tick since s in
      IsRound-trans a (
        rounds-IsRound n tick since1 s1 (omega (arith, h, a.period))
          (omega (arith, a.waited, a.period)) (omega (arith, w, a.period)))

  -- After `n + 1` rounds of the supervisor's task the watchdog was fed once a round, and the task
  -- slept for the ticks of the feed interval once a round. The heartbeats made, times the period, are
  -- at most the intervals slept and one period more; times a period and an interval, they are more
  -- than the intervals slept. The interval is at least 1 ms, at most half of the timeout and at most
  -- the period; the period is at least 1 ms and below 2^31 ms, and the timeout at least 2 ms.
  pub task_supervisor-cadence :
      (n : ℕ) (s : State)
      → 1 ≤ s.heartbeat_period_ms
      → 2 ≤ s.wdt_timeout_ms
      → s.heartbeat_period_ms < 2 ^ 31
      → let tick = tick_ms s in
        let (since, s') = task_supervisor P (suc n) s in
        let made = beats s'.trace in
        (feeds s'.trace ≡ feeds s.trace + suc n)
        × (delayed s'.trace ≡ delayed s.trace + suc n * P.ticks tick)
        × (1 ≤ tick)
        × (tick * 2 ≤ s.wdt_timeout_ms)
        × (tick ≤ s.heartbeat_period_ms)
        × (made * s.heartbeat_period_ms
            ≤ beats s.trace * s.heartbeat_period_ms + s.heartbeat_period_ms + suc n * tick)
        × (suc n * tick + beats s.trace * (s.heartbeat_period_ms + tick)
            < made * (s.heartbeat_period_ms + tick))
  unfolding task_supervisor task_register
  task_supervisor-cadence n s h k w =
      let safe = tick_ms-IsSafe s k h in
      let r =
        rounds-IsRound n (tick_ms s) s.heartbeat_period_ms (task_register P s).1 h (omega arith)
          (omega (arith, safe, w)) in
      (
        omega (arith, r.fed),
        omega (arith, r.slept),
        safe.0,
        safe.1,
        safe.2,
        omega (arith, r.not_early),
        omega (arith, r.not_late, r.waited),
      )
