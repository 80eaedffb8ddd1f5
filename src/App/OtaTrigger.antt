-- ===== src/App/OtaTrigger.antt =====
-- firmware/main/main.c: `ota_test_task`, which waits for the network before it starts an update.
use fortunelabs_mainboard_l.Prelude.{
  ℕ, zero, suc, ◌+◌, ◌*◌, ◌≤◌, ◌<◌, ◌≡◌, refl, sym, ap, ◌∙◌, ◌⊎◌, ◌∷◌, Bool, true, false, not, ◌&&◌,
  Option, none, some, if◌then◌else◌, ◌==◌, ==_iff, ltb, arith, Bool-cases, inl, inr,
}
use fortunelabs_mainboard_l.Platform.{Err, valid}
use fortunelabs_mainboard_l.Ota.Update.{Trace, OtaPlatform, Config, wait_ms, ota_perform}

abbrev pub network_wait_ms : ℕ
network_wait_ms = 30000

abbrev pub network_poll_ms : ℕ
network_poll_ms = 500

abbrev pub settle_ms : ℕ
settle_ms = 10000

abbrev pub test_config : Config
test_config = record {
  has_url = true;
  timeout_ms = 10000;
  reboot_on_success = true;
  skip_cert_check = true;
}

-- What a wait leaves: the number of calls of `network_manager_is_connected`, the time waited, and
-- the calls made.
pub record Waited : Type 0 where
  pub asked : ℕ
  pub waited_ms : ℕ
  pub trace : Trace

-- The loop that waits for the network, on fuel; `connected k` is what the call number `k` of
-- `network_manager_is_connected` returns.
unfoldable pub wait_network : (ℕ → Bool) → ℕ → Waited → Option Waited
wait_network connected zero w = none
wait_network connected (suc n) w =
    let rest = wait_network connected n (record {
      asked = w.asked + 1;
      waited_ms = w.waited_ms + network_poll_ms;
      trace = wait_ms network_poll_ms ∷ w.trace;
    }) in
    if not (connected w.asked) && ltb w.waited_ms network_wait_ms
    then rest
    else some (record w { asked = w.asked + 1 })

abbrev pub at_start : Trace → Waited
at_start t = record { asked = 0; waited_ms = 0; trace = wait_ms settle_ms ∷ t }

module _ (P : OtaPlatform) where
  -- The end of the task: the network is asked once more, and the update made if it is up. `none` is
  -- an update that was skipped or still runs.
  unfoldable pub trigger : ℕ → (ℕ → Bool) → Waited → Option Err × Trace
  trigger fuel connected w =
      if not (connected w.asked)
      then (none, w.trace)
      else ota_perform P fuel valid test_config w.trace

  abbrev pub trigger_after : ℕ → (ℕ → Bool) → Option Waited → Option (Option Err × Trace)
  trigger_after fuel connected none = none
  trigger_after fuel connected (some w) = some (trigger fuel connected w)

  -- `ota_test_task`, with fuel for its loop and for that of the update; `none` if the wait still
  -- runs.
  unfoldable pub ota_test_task : ℕ → ℕ → (ℕ → Bool) → Trace → Option (Option Err × Trace)
  ota_test_task rounds fuel connected t =
      trigger_after fuel connected (wait_network connected rounds (at_start t))

  trigger-asked :
      (fuel : ℕ) (connected : ℕ → Bool) (w : Waited) (m : ℕ)
      → w.asked ≡ m
      → trigger fuel connected w
        ≡ (if connected m then ota_perform P fuel valid test_config w.trace else (none, w.trace))
  unfolding trigger
  trigger-asked fuel connected w m e =
      let c : connected w.asked ≡ connected m = ap connected e in
      elim (Bool-cases (connected m)) [ inl up ↦ rw (c, up) refl | inr down ↦ rw (c, down) refl ]

-- The waits of `n` rounds, after a trace.
abbrev pub wait_rounds : ℕ → Trace → Trace
wait_rounds zero t = t
wait_rounds (suc n) t = wait_ms network_poll_ms ∷ wait_rounds n t

wait_rounds_next :
    (n : ℕ) (t : Trace) → wait_rounds (n + 1) t ≡ wait_ms network_poll_ms ∷ wait_rounds n t
wait_rounds_next n t = ground arith

module _ (connected : ℕ → Bool) (t : Trace) where
  -- A wait of `n` rounds in which the network was not up.
  record IsWaiting (w : Waited) : Type 0 where
    time : w.waited_ms ≡ network_poll_ms * w.asked
    down : (k : ℕ) → k < w.asked → connected k ≡ false
    waits : w.trace ≡ wait_rounds w.asked t

  -- A wait that has ended after some rounds: the network was down in all of them, and then it was up
  -- or the time was over.
  pub record IsWaited (w : Waited) (rounds : ℕ) : Type 0 where
    pub asked_eq : w.asked ≡ rounds + 1
    pub time : w.waited_ms ≡ network_poll_ms * rounds
    pub most : rounds ≤ 60
    pub down : (k : ℕ) → k < rounds → connected k ≡ false
    pub ended : (connected rounds ≡ true) ⊎ (rounds ≡ 60)
    pub waits : w.trace ≡ wait_rounds rounds t

  down-next :
      (n : ℕ)
      → connected n ≡ false
      → ((k : ℕ) → k < n → connected k ≡ false)
      → (k : ℕ) → k < n + 1
      → connected k ≡ false
  down-next n e h k lt = elim (Bool-cases (k == n)) [
    | inl same ↦ rw ((==_iff k n).0 same) e
    | inr other ↦ h k (ground (arith, other, lt))
  ]

  wait_network-ends :
      (n : ℕ) (w : Waited)
      → IsWaiting w
      → w.asked ≤ 60
      → 60 < w.asked + n
      → (w' : Waited) × (rounds : ℕ) × (wait_network connected n w ≡ some w') × IsWaited w' rounds
  unfolding wait_network
  wait_network-ends zero w h few enough = absurd (omega (arith, few, enough))
  wait_network-ends (suc n) w h few enough =
      let next : Waited = record {
        asked = w.asked + 1;
        waited_ms = w.waited_ms + network_poll_ms;
        trace = wait_ms network_poll_ms ∷ w.trace;
      } in
      let stop : Waited = record w { asked = w.asked + 1 } in
      elim (Bool-cases (connected w.asked)) [
        | inl up ↦ (
          stop,
          w.asked,
          ground (arith, up),
          record {
            asked_eq = refl;
            time = h.time;
            most = few;
            down = h.down;
            ended = inl up;
            waits = h.waits;
          },
        )
        | inr down ↦ elim (Bool-cases (ltb w.waited_ms network_wait_ms)) [
          | inl more ↦
              let later : IsWaiting next = record {
                time = omega (arith, h.time);
                down = down-next w.asked down h.down;
                waits =
                    ap (λ t'. wait_ms network_poll_ms ∷ t') h.waits
                    ∙ sym (wait_rounds_next w.asked t);
              } in
              let (w', rounds, same, ended) =
                wait_network-ends n next later (ground (arith, more, h.time))
                  (omega (arith, enough)) in
              (w', rounds, ground (arith, down, more, same), ended)
          | inr over ↦ (
            stop,
            w.asked,
            ground (arith, down, over),
            record {
              asked_eq = refl;
              time = h.time;
              most = few;
              down = h.down;
              ended = inr (ground (arith, over, h.time, few));
              waits = h.waits;
            },
          )
        ]
      ]

-- With fuel for more than 60 rounds, `ota_test_task` ends its wait within 60 rounds of half a
-- second: the first round in which the network is up ends it, and else the sixtieth. The network
-- is then asked once more, and the update is made exactly if it is up.
pub ota_test_task-ends :
    (P : OtaPlatform) (rounds fuel : ℕ) (connected : ℕ → Bool) (t : Trace)
    → 60 < rounds
    → (w : Waited) × (n : ℕ) × IsWaited connected (wait_ms settle_ms ∷ t) w n
      × (ota_test_task P rounds fuel connected t
          ≡ some (
              if connected (n + 1)
              then ota_perform P fuel valid test_config w.trace
              else (none, w.trace)))
unfolding ota_test_task
ota_test_task-ends P rounds fuel connected t enough =
    let t0 : Trace = wait_ms settle_ms ∷ t in
    let start : IsWaiting connected t0 (at_start t) = record {
      time = omega arith;
      down = λ k lt. absurd (omega (arith, lt));
      waits = refl;
    } in
    let (w, n, same, ended) =
      wait_network-ends connected t0 rounds (at_start t) start (omega arith)
        (omega (arith, enough)) in
    (
      w,
      n,
      ended,
      ap (trigger_after P fuel connected) same
          ∙ ap some (trigger-asked P fuel connected w (n + 1) ended.asked_eq),
    )
