-- ===== src/Bus/Faults.antt =====
-- How the bus accounts for errors, and what a failed recovery means for later calls.
use fortunelabs_mainboard_l.Prelude.{
  ℕ, ◌+◌, ◌%◌, ◌^◌, ◌<◌, ◌≡◌, refl, true, false, List, [], ◌∷◌, arith, if◌then◌else◌, not, ◌||◌,
  ◌==◌,
}
use fortunelabs_mainboard_l.Platform.{
  Err, err, timeout, invalid_state, is_ok, is_timeout, Pointer, is_null, Platform, mutex, acquire,
  release, i2c, Transfer, transfer,
}
use fortunelabs_mainboard_l.Bus.State.{Sys, log_call, count_error}
use fortunelabs_mainboard_l.Bus.Recovery.{recover_locked}
use fortunelabs_mainboard_l.Bus.Transfers.{retry, after_timeout, transfer_locked, transfer_with}
use fortunelabs_mainboard_l.Bus.Lifecycle.{add_device, deinit}
use fortunelabs_mainboard_l.Bus.Scan.{scan}
use fortunelabs_mainboard_l.Bus.Quiet.{recover_locked-IsStep}
use fortunelabs_mainboard_l.Bus.Recovered.{recover_locked-IsRecovered}

module _ (P : Platform) where
  -- The errors that one transfer call counts, by what the platform answered and what the call
  -- returned: none if the call is refused, one if the mutex is not had in time; else one for a
  -- timeout of the driver and one for a failed call.
  abbrev pub faults : Pointer → Transfer → Sys → Err → ℕ
  faults p x s r =
      let take_lock = mutex (acquire s.bus.lock) in
      let first = P.status (take_lock ∷ s.trace) (i2c (transfer x)) in
      if is_null p || not s.bus.initialized
      then 0
      else (if P.value s.trace take_lock == 0
          then 1
          else (if is_timeout first then 1 else 0) + (if is_ok r then 0 else 1))

  after_timeout-error_count :
      (x : Transfer) (buf : List ℕ) (s : Sys)
      → (after_timeout P x buf s).2.bus.error_count ≡ s.bus.error_count
  unfolding after_timeout retry
  after_timeout-error_count x buf s = ground (arith, (recover_locked-IsStep P s).same)

  transfer_locked-error_count :
      (x : Transfer) (s : Sys)
      → s.bus.error_count < 2 ^ 32
      → (transfer_locked P x s).2.bus.error_count
        ≡ (s.bus.error_count + (if is_timeout (P.status s.trace (i2c (transfer x))) then 1 else 0))
          % 2 ^ 32
  unfolding transfer_locked
  transfer_locked-error_count x s h =
      let c = i2c (transfer x) in
      ground (arith, after_timeout-error_count x (P.reply s.trace c) (count_error (log_call c s)))

  -- The error counter of the bus grows by exactly `faults`, modulo 2^32.
  pub transfer_with-error_count :
      (p : Pointer) (x : Transfer) (s : Sys)
      → s.bus.error_count < 2 ^ 32
      → let (r, out, s') = transfer_with P p x s in
        s'.bus.error_count ≡ (s.bus.error_count + faults p x s r) % 2 ^ 32
  unfolding transfer_with
  transfer_with-error_count p x s h =
      let s1 = log_call (mutex (acquire s.bus.lock)) s in
      ground (arith, transfer_locked-error_count x s1 h)

  -- Transfer calls made one after the other, and their errors.
  abbrev pub run : List Transfer → Sys → List Err × Sys
  run [] s = ([], s)
  run (x ∷ xs) s =
      let (r, out, s1) = transfer_with P Pointer.valid x s in
      let (rs, s2) = run xs s1 in (r ∷ rs, s2)

  abbrev pub all_refused : List Transfer → List Err
  all_refused [] = []
  all_refused (x ∷ xs) = err invalid_state ∷ all_refused xs

  refused :
      (x : Transfer) (s : Sys)
      → s.bus.initialized ≡ false
      → transfer_with P Pointer.valid x s ≡ (err invalid_state, [], s)
  unfolding transfer_with
  refused x s h = rw h

  run_refused :
      (xs : List Transfer) (s : Sys) → s.bus.initialized ≡ false → run xs s ≡ (all_refused xs, s)
  run_refused [] s h = refl
  run_refused (x ∷ xs) s h = rw (refused x s h, run_refused xs s h)

  transfer_locked-failed :
      (x : Transfer) (s : Sys)
      → let c = i2c (transfer x) in
        is_timeout (P.status s.trace c) ≡ true
        → is_ok (recover_locked P (count_error (log_call c s))).0 ≡ false
        → ((transfer_locked P x s).0 ≡ err timeout)
          × ((transfer_locked P x s).2.bus.initialized ≡ false)
  unfolding transfer_locked after_timeout
  transfer_locked-failed x s h k =
      let s1 = count_error (log_call (i2c (transfer x)) s) in
      ground (arith, h, k, (recover_locked-IsRecovered P s1).usable)

  -- The state in which the driver's timeout on `x` is handled: the mutex was taken.
  abbrev pub timed_out : Transfer → Sys → Sys
  timed_out x s =
      count_error (log_call (i2c (transfer x)) (log_call (mutex (acquire s.bus.lock)) s))

  -- The conditions for a recovery: a usable bus, the mutex taken, and a timeout of the driver.
  pub record IsTimeout (x : Transfer) (s : Sys) : Type 0 where
    pub usable : s.bus.initialized ≡ true
    pub taken : (P.value s.trace (mutex (acquire s.bus.lock)) == 0) ≡ false
    pub late :
        is_timeout (P.status (mutex (acquire s.bus.lock) ∷ s.trace) (i2c (transfer x))) ≡ true

  failed_unusable :
      (x : Transfer) (s : Sys)
      → IsTimeout x s
      → is_ok (recover_locked P (timed_out x s)).0 ≡ false
      → let (r, out, s') = transfer_with P Pointer.valid x s in
        (r ≡ err timeout) × (s'.bus.initialized ≡ false)
  unfolding transfer_with
  failed_unusable x s h k =
      let s1 = log_call (mutex (acquire s.bus.lock)) s in
      ground (arith, h.usable, h.taken, transfer_locked-failed x s1 h.late k)

  unusable_refused :
      (p q : Pointer) (a hz o : ℕ) (s : Sys)
      → s.bus.initialized ≡ false
      → (deinit P p s ≡ (err invalid_state, s))
        × (scan P p s ≡ (err invalid_state, 0, s))
        × (is_ok (add_device P p a hz q o s).0 ≡ false)
  unfolding deinit scan add_device
  unusable_refused p q a hz o s h = ground arith

  -- A recovery that fails is final: the call that met the timeout returns ESP_ERR_TIMEOUT, and
  -- from then on every transfer of every device returns ESP_ERR_INVALID_STATE and does nothing at
  -- all, so the recovery is never tried again; a scan and a de-initialization are refused as well,
  -- and no device can be added.
  pub failed_recovery_is_final :
      (x : Transfer) (xs : List Transfer) (p q : Pointer) (a hz o : ℕ) (s : Sys)
      → IsTimeout x s
      → is_ok (recover_locked P (timed_out x s)).0 ≡ false
      → let (r, out, s') = transfer_with P Pointer.valid x s in
        (r ≡ err timeout)
        × (run xs s' ≡ (all_refused xs, s'))
        × (deinit P p s' ≡ (err invalid_state, s'))
        × (scan P p s' ≡ (err invalid_state, 0, s'))
        × (is_ok (add_device P p a hz q o s').0 ≡ false)
  failed_recovery_is_final x xs p q a hz o s h k =
      let s' = (transfer_with P Pointer.valid x s).2 in
      let (late, dead) = failed_unusable x s h k in
      let (r1, r2, r3) = unusable_refused p q a hz o s' dead in
      (late, run_refused xs s' dead, r1, r2, r3)

  transfer_locked-recovered :
      (x : Transfer) (s : Sys)
      → let s1 = count_error (log_call (i2c (transfer x)) s) in
        is_timeout (P.status s.trace (i2c (transfer x))) ≡ true
        → is_ok (recover_locked P s1).0 ≡ true
        → ((transfer_locked P x s).2.trace ≡ i2c (transfer x) ∷ (recover_locked P s1).1.trace)
          × ((transfer_locked P x s).2.bus.lock ≡ s.bus.lock)
  unfolding transfer_locked after_timeout retry
  transfer_locked-recovered x s h k =
      let s1 = count_error (log_call (i2c (transfer x)) s) in
      ground (arith, h, k, (recover_locked-IsStep P s1).same)

  -- After a recovery that succeeds, the same transfer is tried once more and the mutex is given
  -- back: the retry goes to the device handle that the caller passed, whatever handle the recovery
  -- put in the registry for that device.
  pub retry_keeps_handle :
      (x : Transfer) (s : Sys)
      → IsTimeout x s
      → is_ok (recover_locked P (timed_out x s)).0 ≡ true
      → (transfer_with P Pointer.valid x s).2.trace
        ≡ mutex (release s.bus.lock) ∷ i2c (transfer x) ∷ (recover_locked P (timed_out x s)).1.trace
  unfolding transfer_with
  retry_keeps_handle x s h k =
      let s1 = log_call (mutex (acquire s.bus.lock)) s in
      ground (arith, h.usable, h.taken, transfer_locked-recovered x s1 h.late k)
