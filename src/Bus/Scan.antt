-- ===== src/Bus/Scan.antt =====
-- firmware/main/bus/i2c_bus.c: `i2c_bus_scan`. The name that is printed for an address is left out.
use fortunelabs_mainboard_l.Prelude.{ℕ, zero, suc, ◌+◌, not, ◌||◌, ◌∷◌, if◌then◌else◌, ◌==◌}
use fortunelabs_mainboard_l.Platform.{
  Err, ok, err, invalid_state, timeout, is_ok, Pointer, is_null, Trace, Platform, mutex, acquire,
  release, i2c, probe,
}
use fortunelabs_mainboard_l.Bus.State.{Sys, log_call, count_error}

abbrev pub first_addr : ℕ
first_addr = 0x03

-- The addresses from 0x03 to 0x77.
abbrev pub scan_rounds : ℕ
scan_rounds = 0x75

module _ (P : Platform) where
  open P use {status, value}

  -- The `for` loop, with the rounds left, the address and the devices found.
  unfoldable pub scan_from : ℕ → ℕ → ℕ → ℕ → Trace → ℕ × Trace
  scan_from h zero addr found t = (found, t)
  scan_from h (suc n) addr found t =
      let c = i2c (probe h addr) in
      scan_from h n (addr + 1) (if is_ok (status t c) then found + 1 else found) (c ∷ t)

  -- The error, the number of devices found, which is printed, and the new state.
  unfoldable pub scan : Pointer → Sys → Err × ℕ × Sys
  scan p s =
      if is_null p || not s.bus.initialized
      then (err invalid_state, 0, s)
      else (let take_lock = mutex (acquire s.bus.lock) in
          let s1 = log_call take_lock s in
          if value s.trace take_lock == 0
          then (err timeout, 0, count_error s1)
          else (let (found, t) = scan_from s.bus.bus_handle scan_rounds first_addr 0 s1.trace in
              (ok, found, record { bus = s.bus; trace = mutex (release s.bus.lock) ∷ t })))
