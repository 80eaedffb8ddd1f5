-- ===== src/App/RemoteLog.antt =====
-- The way of log lines to the broker: firmware/main/system/system_log.c with `app_log_sink` of
-- firmware/main/main.c as its sink.
use fortunelabs_mainboard_l.Prelude.{
  ℕ, suc, ◌≤◌, ◌≡◌, refl, ap, ◌∙◌, true, false, List, [], ◌∷◌, some, ◌++◌, arith, ◌==◌, length,
  take,
}
use fortunelabs_mainboard_l.Platform.{Platform}
use fortunelabs_mainboard_l.Queues.{QueueApi}
use fortunelabs_mainboard_l.LogService.Facade
use fortunelabs_mainboard_l.LogService.Facade.{log_all, forward_all}
use fortunelabs_mainboard_l.LogService.Serial.{newest_first}
use fortunelabs_mainboard_l.LogService.Forwarding.{cut_lines, idle, log_all-delivered}
use fortunelabs_mainboard_l.Network.Manager.{State, is_connected, publish, when_connected}
use fortunelabs_mainboard_l.Network.Telemetry.{sent}
use fortunelabs_mainboard_l.App.Boot.{app_log_sink, app_log_sink-sent}

module _ {W : Type 0} (P : Platform) (topic : List ℕ) where
  -- The calls of the sink with lines, given the newest first.
  unfoldable pub sink_all : List (List ℕ) → State W → State W
  sink_all [] s = s
  sink_all (line ∷ older) s = app_log_sink P topic line (sink_all older s)

  -- A manager that is started and connected to the broker.
  pub record IsLinked (s : State W) : Type 0 where
    pub lock_made : (s.lock == 0) ≡ false
    pub client_made : (s.client == 0) ≡ false
    pub linked : s.mqtt_connected ≡ true

  app_log_sink-IsLinked :
      (line : List ℕ) (s : State W) → IsLinked s → IsLinked (app_log_sink P topic line s)
  unfolding app_log_sink is_connected publish when_connected
  app_log_sink-IsLinked line s h = ground (arith, h.lock_made, h.client_made, h.linked)

  sink_all-IsLinked :
      (lines : List (List ℕ)) (s : State W) → IsLinked s → IsLinked (sink_all lines s)
  unfolding sink_all
  sink_all-IsLinked [] s h = h
  sink_all-IsLinked (line ∷ older) s h =
      app_log_sink-IsLinked line (sink_all older s) (sink_all-IsLinked older s h)

  sink_all-sent :
      (lines : List (List ℕ)) (s : State W)
      → IsLinked s
      → sent topic (sink_all lines s).trace ≡ lines ++ sent topic s.trace
  unfolding sink_all
  sink_all-sent [] s h = refl
  sink_all-sent (line ∷ older) s h =
      let s1 : State W = sink_all older s in
      let h1 = sink_all-IsLinked older s h in
      app_log_sink-sent P topic line s1 h1.lock_made h1.client_made
      ∙ (rw (h1.linked) (ap (λ (xs : List (List ℕ)). line ∷ xs) (sink_all-sent older s h)))

  -- Of the lines that wait in the queue of the log service and those that are then logged, the ones
  -- that are not empty, cut to the line buffer and as many as the queue holds, are handed to the
  -- client for the log topic, each once and in order, after what was sent on it before, if the
  -- manager stays started and connected; what the sink itself logs is not sent. The queue starts
  -- within its bound, and a fuel of one call of the hook is enough.
  pub log_all-published :
      (api : QueueApi (List ℕ)) (fuel : ℕ) (texts own : List (List ℕ)) (base : Facade.State api)
      (q : api.Queue) (s : State W)
      → length (api.contents q) ≤ api.depth
      → IsLinked s
      → let kept = take api.depth (api.contents q ++ cut_lines texts) in
        (logged drained : Facade.State api) × (log_all api (suc fuel) texts (idle api base q [] [])
          ≡ some logged)
        × (forward_all api (suc fuel) (length kept) own logged ≡ some drained)
        × (sent topic (sink_all drained.sunk s).trace ≡ newest_first kept [] ++ sent topic s.trace)
  log_all-published api fuel texts own base q s room h =
      let (logged, drained, one, out, two, sunk_eq, ended, empty) =
        log_all-delivered api fuel texts own base q [] [] room in
      (
        logged,
        drained,
        one,
        two,
        ap (λ (lines : List (List ℕ)). sent topic (sink_all lines s).trace) sunk_eq
            ∙ sink_all-sent (newest_first (take api.depth (api.contents q ++ cut_lines texts)) []) s
                h,
      )
