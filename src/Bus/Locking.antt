-- ===== src/Bus/Locking.antt =====
-- The mutex discipline of firmware/main/bus/i2c_bus.c.
use fortunelabs_mainboard_l.Prelude.{
  ℕ, zero, suc, ◌+◌, ◌≡◌, true, false, List, ◌∷◌, arith, Bool-cases, inl, inr, ◌∙◌, not, ◌||◌, ◌==◌,
}
use fortunelabs_mainboard_l.Platform.{
  Err, err, timeout, is_ok, is_timeout, Pointer, is_null, Trace, Platform, mutex, acquire, release,
  i2c, Transfer, transfer, probe,
}
use fortunelabs_mainboard_l.Bus.State.{Sys, log_call, count_error}
use fortunelabs_mainboard_l.Bus.Recovery.{recover_locked}
use fortunelabs_mainboard_l.Bus.Transfers.{retry, after_timeout, transfer_locked, transfer_with}
use fortunelabs_mainboard_l.Bus.Scan.{scan_from, scan, scan_rounds, first_addr}
use fortunelabs_mainboard_l.Bus.Traces.{held, Guarded}
use fortunelabs_mainboard_l.Bus.Quiet.{Quiet-held, Quiet-Guarded, recover_locked-IsStep}

module _ (P : Platform) where
  -- The mutex of the bus is held, and the bus was used only while it was.
  pub record IsHeld (s : Sys) : Type 0 where
    pub now : held P s.bus.lock s.trace ≡ true
    pub before : Guarded P s.bus.lock s.trace

  -- The mutex is free, and the bus was used only while it was held.
  pub record IsFree (s : Sys) : Type 0 where
    pub now : held P s.bus.lock s.trace ≡ false
    pub before : Guarded P s.bus.lock s.trace

  log-IsHeld : (x : Transfer) {s : Sys} → IsHeld s → IsHeld (log_call (i2c (transfer x)) s)
  log-IsHeld x h = record { now = h.now; before = (λ e. h.now, h.before) }

  recover_locked-IsHeld : (s : Sys) → IsHeld s → IsHeld (recover_locked P s).1
  recover_locked-IsHeld s h =
      let step = recover_locked-IsStep P s in
      record {
        now = rw (step.same.lock) (Quiet-held P s.bus.lock step.quiet ∙ h.now);
        before = rw (step.same.lock) (Quiet-Guarded P s.bus.lock step.quiet h.before);
      }

  retry-IsHeld :
      (n : ℕ) (x : Transfer) (c : Err) (buf : List ℕ) (s : Sys)
      → IsHeld s
      → IsHeld (retry P n x c buf s).2
  unfolding retry
  retry-IsHeld zero x c buf s h = h
  retry-IsHeld (suc n) x c buf s h =
      let call = i2c (transfer x) in
      elim (Bool-cases (is_ok c)) [
        | inl e ↦ rw e h
        | inr e ↦ rw e (
            retry-IsHeld n x (P.status s.trace call) (P.reply s.trace call) (log_call call s)
              (log-IsHeld x h))
      ]

  after_timeout-IsHeld :
      (x : Transfer) (buf : List ℕ) (s : Sys) → IsHeld s → IsHeld (after_timeout P x buf s).2
  unfolding after_timeout
  after_timeout-IsHeld x buf s h =
      let r = recover_locked-IsHeld s h in
      elim (Bool-cases (is_ok (recover_locked P s).0)) [
        | inl e ↦ rw e (retry-IsHeld 1 x (err timeout) buf (recover_locked P s).1 r)
        | inr e ↦ rw e r
      ]

  transfer_locked-IsHeld : (x : Transfer) (s : Sys) → IsHeld s → IsHeld (transfer_locked P x s).2
  unfolding transfer_locked
  transfer_locked-IsHeld x s h =
      let c = i2c (transfer x) in
      let h' = log-IsHeld x h in
      elim (Bool-cases (is_timeout (P.status s.trace c))) [
        | inl e ↦ rw e (
            after_timeout-IsHeld x (P.reply s.trace c) (count_error (log_call c s))
              (record { now = h'.now; before = h'.before }))
        | inr e ↦ rw e h'
      ]

  released : (s : Sys) → IsHeld s → IsFree (log_call (mutex (release s.bus.lock)) s)
  released s h = record { now = ground (arith, h.now); before = (λ e. cc, h.before) }

  -- A transfer call that finds the mutex free leaves it free, on every path, and uses the bus only
  -- while it holds the mutex.
  pub transfer_with-IsFree :
      (p : Pointer) (x : Transfer) (s : Sys) → IsFree s → IsFree (transfer_with P p x s).2
  unfolding transfer_with
  transfer_with-IsFree p x s h =
      let take_lock = mutex (acquire s.bus.lock) in
      let s1 = log_call take_lock s in
      let r = transfer_locked P x s1 in
      elim (Bool-cases (is_null p || not s.bus.initialized)) [
        | inl e ↦ rw e h
        | inr e ↦ rw e (elim (Bool-cases (P.value s.trace take_lock == 0)) [
          | inl z ↦ rw z (record { now = ground (arith, h.now); before = (λ e. cc, h.before) })
          | inr z ↦
              let busy : IsHeld s1 = record { now = ground arith; before = (λ e. cc, h.before) } in
              let done = released r.2 (transfer_locked-IsHeld x s1 busy) in
              rw z (elim (Bool-cases (is_ok r.0)) [
                | inl o ↦ rw o done
                | inr o ↦ rw o (record { now = done.now; before = done.before })
              ])
        ])
      ]

  scan_from-held :
      (m h n a k : ℕ) (t : Trace)
      → held P m t ≡ true
      → Guarded P m t
      → let (found, t') = scan_from P h n a k t in (held P m t' ≡ true) × Guarded P m t'
  unfolding scan_from
  scan_from-held m h zero a k t e g = (e, g)
  scan_from-held m h (suc n) a k t e g =
      scan_from-held m h n (a + 1) _ (i2c (probe h a) ∷ t) e ((λ _. e), g)

  -- A scan that finds the mutex free leaves it free, and probes only while it holds the mutex.
  pub scan-IsFree : (p : Pointer) (s : Sys) → IsFree s → IsFree (scan P p s).2
  unfolding scan
  scan-IsFree p s h =
      let take_lock = mutex (acquire s.bus.lock) in
      let s1 = log_call take_lock s in
      elim (Bool-cases (is_null p || not s.bus.initialized)) [
        | inl e ↦ rw e h
        | inr e ↦ rw e (elim (Bool-cases (P.value s.trace take_lock == 0)) [
          | inl z ↦ rw z (record { now = ground (arith, h.now); before = (λ e. cc, h.before) })
          | inr z ↦
              let (now, before) =
                scan_from-held s.bus.lock s.bus.bus_handle scan_rounds first_addr 0 s1.trace
                  (ground arith) ((λ e. cc), h.before) in
              rw z (record { now = ground (arith, now); before = ((λ e. cc), before) })
        ])
      ]
