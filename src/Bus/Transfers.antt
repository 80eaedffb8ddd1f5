-- ===== src/Bus/Transfers.antt =====
-- firmware/main/bus/i2c_bus.c: `i2c_bus_write`, `i2c_bus_read`, `i2c_bus_write_read`. The three
-- have one body each, which differ in the call of the driver alone: here it is `transfer_with`.
use fortunelabs_mainboard_l.Prelude.{ℕ, zero, suc, not, ◌||◌, List, [], if◌then◌else◌, ◌==◌}
use fortunelabs_mainboard_l.Platform.{
  Err, err, invalid_state, timeout, is_ok, is_timeout, Pointer, is_null, Platform, mutex, acquire,
  release, i2c, Transfer, transfer, transmit, receive, transmit_receive,
}
use fortunelabs_mainboard_l.Bus.State.{Sys, log_call, count_error, recovery_retry}
use fortunelabs_mainboard_l.Bus.Recovery.{recover_locked}

module _ (P : Platform) where
  open P use {status, value, reply}

  -- The retry loop, with the attempts left. The buffer holds what the last call stored.
  unfoldable pub retry : ℕ → Transfer → Err → List ℕ → Sys → Err × List ℕ × Sys
  retry zero x ret buf s = (ret, buf, s)
  retry (suc n) x ret buf s =
      let c = i2c (transfer x) in
      let again = retry n x (status s.trace c) (reply s.trace c) (log_call c s) in
      if is_ok ret then (ret, buf, s) else again

  -- After a timeout of the driver: recovery, then the retries.
  unfoldable pub after_timeout : Transfer → List ℕ → Sys → Err × List ℕ × Sys
  after_timeout x buf s =
      let (r, s') = recover_locked P s in
      if is_ok r then retry recovery_retry x (err timeout) buf s' else (err timeout, buf, s')

  -- What happens while the mutex is held, without the release.
  unfoldable pub transfer_locked : Transfer → Sys → Err × List ℕ × Sys
  transfer_locked x s =
      let c = i2c (transfer x) in
      let ret = status s.trace c in
      let s1 = log_call c s in
      let recovered = after_timeout x (reply s.trace c) (count_error s1) in
      if is_timeout ret then recovered else (ret, reply s.trace c, s1)

  -- The whole call: the error, the bytes in the caller's buffer, the new state.
  unfoldable pub transfer_with : Pointer → Transfer → Sys → Err × List ℕ × Sys
  transfer_with p x s =
      if is_null p || not s.bus.initialized
      then (err invalid_state, [], s)
      else (let take_lock = mutex (acquire s.bus.lock) in
          let s1 = log_call take_lock s in
          if value s.trace take_lock == 0
          then (err timeout, [], count_error s1)
          else (let (ret, buf, s2) = transfer_locked x s1 in
              let s3 = log_call (mutex (release s2.bus.lock)) s2 in
              (ret, buf, if is_ok ret then s3 else count_error s3)))

  unfoldable pub write : Pointer → ℕ → List ℕ → Sys → Err × Sys
  write p dev bytes s = let (ret, buf, s') = transfer_with p (transmit dev bytes) s in (ret, s')

  unfoldable pub read : Pointer → ℕ → ℕ → Sys → Err × List ℕ × Sys
  read p dev n = transfer_with p (receive dev n)

  unfoldable pub write_read : Pointer → ℕ → List ℕ → ℕ → Sys → Err × List ℕ × Sys
  write_read p dev bytes n = transfer_with p (transmit_receive dev bytes n)
