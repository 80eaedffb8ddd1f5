-- ===== src/App/Health.antt =====
-- The way of heartbeats to the broker: firmware/main/system/system_supervisor.c with
-- `network_manager_publish_health` of firmware/main/network/network_manager.c as its callback, as
-- `app_main` of firmware/main/main.c sets it.
use fortunelabs_mainboard_l.Prelude.{
  ℕ, suc, ◌+◌, ◌*◌, ◌^◌, ◌≤◌, ◌<◌, ◌≡◌, refl, sym, ap, ◌∙◌, true, false, List, [], ◌∷◌, ◌++◌, none,
  some, ◌==◌, length, arith,
}
use fortunelabs_mainboard_l.Prelude.Text.{codes, length-truncate, eq_bytes_refl}
use fortunelabs_mainboard_l.Platform.{ok, Platform}
use fortunelabs_mainboard_l.Supervisor.Task as Supervisor
use fortunelabs_mainboard_l.Supervisor.Task.{Config, init, start_watchdog, tick_ms, task_supervisor}
use fortunelabs_mainboard_l.Supervisor.Cadence.{beats, delayed, task_supervisor-cadence}
use fortunelabs_mainboard_l.Supervisor.Heartbeats.{published, task_supervisor-IsMatched}
use fortunelabs_mainboard_l.Network.Manager.{State, publish_health, when_connected}
use fortunelabs_mainboard_l.Network.Telemetry.{sent}

at_most : {a b b0 p q : ℕ} (t : ℕ) → a ≡ b → b0 ≡ 0 → q ≡ p → b * q ≤ b0 * q + q + t → a * p ≤ p + t
at_most t e z f h = rw (e, ← f) (omega (arith, rw z at h))

at_least :
    {a b b0 p q : ℕ} (t u : ℕ)
    → a ≡ b
    → b0 ≡ 0
    → q ≡ p
    → t + b0 * (q + u) < b * (q + u)
    → t < a * (p + u)
at_least t u e z f h = rw (e, ← f) (omega (arith, rw z at h))

module _ (P : Platform) where
  -- What a start of the supervisor that succeeds leaves.
  record IsConfigured (cfg : Config) (s0 s : Supervisor.State) : Type 0 where
    timeout : s.wdt_timeout_ms ≡ cfg.wdt_timeout_ms
    period : s.heartbeat_period_ms ≡ cfg.heartbeat_period_ms
    publishing : s.publishes ≡ cfg.publishes
    id_fits : length s.device_id < 32
    same_published : published s.trace ≡ published s0.trace
    same_beats : beats s.trace ≡ beats s0.trace
    same_delayed : delayed s.trace ≡ delayed s0.trace

  init-IsConfigured :
      (cfg : Config) (s0 : Supervisor.State)
      → (init P (some cfg) s0).0 ≡ ok
      → IsConfigured cfg s0 (init P (some cfg) s0).1
  unfolding init start_watchdog
  init-IsConfigured cfg s0 o = record {
    timeout = ground (arith, o);
    period = ground (arith, o);
    publishing = ground (arith, o);
    id_fits = ground (
      arith,
      o,
      length-truncate 32 (elim cfg.device_id [ none ↦ codes "unknown" | some id ↦ id ]),
    );
    same_published = ground (arith, o);
    same_beats = ground (arith, o);
    same_delayed = ground (arith, o);
  }

  module _ {W : Type 0} where
    -- The calls of the callback with payloads, given the newest first.
    unfoldable pub health_all : List (List ℕ) → State W → State W
    health_all [] m = m
    health_all (payload ∷ older) m = (publish_health P payload (health_all older m)).1

    record IsLinked (m m' : State W) : Type 0 where
      client_made : (m'.client == 0) ≡ false
      linked : m'.mqtt_connected ≡ true
      topic : m'.topic_health ≡ m.topic_health

    publish_health-sent :
        (payload : List ℕ) (m m' : State W)
        → IsLinked m m'
        → let m1 = (publish_health P payload m').1 in
          IsLinked m m1 × (sent m.topic_health m1.trace ≡ payload ∷ sent m.topic_health m'.trace)
    unfolding publish_health when_connected
    publish_health-sent payload m m' h = (
      record {
        client_made = ground (arith, h.client_made, h.linked);
        linked = ground (arith, h.client_made, h.linked);
        topic = ground (arith, h.client_made, h.linked, h.topic);
      },
      ground (arith, h.client_made, h.linked, h.topic, eq_bytes_refl m.topic_health),
    )

    health_all-IsLinked :
        (payloads : List (List ℕ)) (m : State W) → IsLinked m m → IsLinked m (health_all payloads m)
    unfolding health_all
    health_all-IsLinked [] m h = h
    health_all-IsLinked (payload ∷ older) m h =
        (publish_health-sent payload m (health_all older m) (health_all-IsLinked older m h)).0

    health_all-sent :
        (payloads : List (List ℕ)) (m : State W)
        → IsLinked m m
        → sent m.topic_health (health_all payloads m).trace
          ≡ payloads ++ sent m.topic_health m.trace
    unfolding health_all
    health_all-sent [] m h = refl
    health_all-sent (payload ∷ older) m h =
        (publish_health-sent payload m (health_all older m) (health_all-IsLinked older m h)).1
        ∙ ap (λ (xs : List (List ℕ)). payload ∷ xs) (health_all-sent older m h)

    -- After a start of the supervisor that returns ESP_OK and `n + 1` rounds of its task, with
    -- `network_manager_publish_health` as its callback, the client was handed for the health topic,
    -- in order and after what was sent on it before, every heartbeat that was made. The task slept
    -- for the ticks of its feed interval once a round, and the heartbeats are at the cadence: times
    -- the period they are at most the intervals slept and one period more, and times a period and an
    -- interval more than the intervals slept. The manager stays connected, the period is at least
    -- 1 ms and below 2^31 ms, the watchdog times out after at least 2 ms, and no heartbeat was made
    -- before.
    pub health_all-cadence :
        (cfg : Config) (s0 : Supervisor.State) (n : ℕ) (m : State W)
        → published s0.trace ≡ []
        → beats s0.trace ≡ 0
        → (init P (some cfg) s0).0 ≡ ok
        → cfg.publishes ≡ true
        → 1 ≤ cfg.heartbeat_period_ms
        → 2 ≤ cfg.wdt_timeout_ms
        → cfg.heartbeat_period_ms < 2 ^ 31
        → (m.client == 0) ≡ false
        → m.mqtt_connected ≡ true
        → let s = (init P (some cfg) s0).1 in
          let period = cfg.heartbeat_period_ms in
          let t = (task_supervisor P (suc n) s).1.trace in
          let made = published t in
          (sent m.topic_health (health_all made m).trace ≡ made ++ sent m.topic_health m.trace)
          × (length made * period ≤ period + suc n * tick_ms s)
          × (suc n * tick_ms s < length made * (period + tick_ms s))
          × (delayed t ≡ delayed s0.trace + suc n * P.ticks (tick_ms s))
    health_all-cadence cfg s0 n m none_published no_beats o p h k w c l =
        let s = (init P (some cfg) s0).1 in
        let i = init-IsConfigured cfg s0 o in
        let made = published (task_supervisor P (suc n) s).1.trace in
        let zero = i.same_beats ∙ no_beats in
        let all : length made ≡ beats (task_supervisor P (suc n) s).1.trace =
          task_supervisor-IsMatched P (suc n) s
            (record { publishing = i.publishing ∙ p; id_fits = i.id_fits })
            (ap length (i.same_published ∙ none_published) ∙ sym zero) in
        let (fed, slept, some_time, in_time, in_period, early, late) =
          task_supervisor-cadence P n s (rw (i.period) h) (rw (i.timeout) k) (rw (i.period) w) in
        (
          health_all-sent made m (record { client_made = c; linked = l; topic = refl }),
          at_most (suc n * tick_ms s) all zero (i.period) early,
          at_least (suc n * tick_ms s) (tick_ms s) all zero (i.period) late,
          omega (arith, slept, i.same_delayed),
        )
