-- ===== src/Bus/Registry.antt =====
-- The well-formedness of the bus object, and what recovery does to the device registry.
use fortunelabs_mainboard_l.Prelude.{
  ℕ, zero, suc, ◌^◌, ◌≤◌, ◌<◌, ◌≡◌, refl, ap, true, List, [], ◌∷◌, arith, Bool-cases, inl, inr,
  ◌==◌, length, length-set,
}
use fortunelabs_mainboard_l.Platform.{
  Pointer, Call, Trace, Platform, mutex, acquire, i2c, gpio, get_level, Transfer, transfer,
  new_master_bus, bus_add_device, Err-cases,
}
use fortunelabs_mainboard_l.Bus.State.{
  Entry, BusConfig, Bus, Sys, log_call, count_error, max_devices, recovery_clocks,
}
use fortunelabs_mainboard_l.Bus.Lifecycle.{init, deinit, add_device}
use fortunelabs_mainboard_l.Bus.Recovery.{
  teardown, stop_condition, clock_out, readd, reattach, rebuild, recover_locked,
}
use fortunelabs_mainboard_l.Bus.Transfers.{retry, after_timeout, transfer_locked, transfer_with}
use fortunelabs_mainboard_l.Bus.Scan.{scan}
use fortunelabs_mainboard_l.Bus.Quiet.{recover_locked-IsStep}

-- The bus object between two calls.
pub record IsValid (b : Bus) : Type 0 where
  pub slots : length b.devices ≡ max_devices
  pub counted : b.device_count ≤ max_devices
  pub errors : b.error_count < 2 ^ 32

module _ (P : Platform) where
  -- Whatever it returns, initialization with real pointers leaves a well-formed object.
  pub init-IsValid :
      (cfg : BusConfig) (s : Sys) → IsValid (init P Pointer.valid Pointer.valid cfg s).1.bus
  unfolding init
  init-IsValid cfg s = ground arith

  pub deinit-IsValid : (p : Pointer) (s : Sys) → IsValid s.bus → IsValid (deinit P p s).1.bus
  unfolding deinit
  deinit-IsValid p s v = ground arith

  -- Adding a device keeps the object well-formed: a write never leaves the registry.
  pub add_device-IsValid :
      (p q : Pointer) (a hz o : ℕ) (s : Sys)
      → IsValid s.bus
      → IsValid (add_device P p a hz q o s).2.bus
  unfolding add_device
  add_device-IsValid p q a hz o s v =
      let add = i2c (bus_add_device s.bus.bus_handle a hz) in
      let e : Entry = record { addr = a; handle = P.value s.trace add; active = true } in
      ground (arith, length-set s.bus.devices s.bus.device_count e)

  length-readd : (h n : ℕ) (es : List Entry) (t : Trace) → length (readd P h n es t).1 ≡ length es
  unfolding readd
  length-readd h zero es t = refl
  length-readd h (suc n) [] t = refl
  length-readd h (suc n) (e ∷ es) t =
      let add = i2c (bus_add_device h e.addr 0) in
      elim (Err-cases (P.status t add)) [
        | inl p ↦ rw (p, readd) (ap suc (length-readd h n es (add ∷ t)))
        | inr (c, p) ↦ rw (p, readd)
      ]

  length-reattach : (s : Sys) → length (reattach P s).1.bus.devices ≡ length s.bus.devices
  unfolding reattach
  length-reattach s =
      let b = s.bus in
      let l = length-readd b.bus_handle b.device_count b.devices s.trace in
      elim (Err-cases (readd P b.bus_handle b.device_count b.devices s.trace).0) [
        | inl e ↦ rw (e, reattach) l
        | inr (c, e) ↦ rw (e, reattach) l
      ]

  length-rebuild : (s : Sys) → length (rebuild P s).1.bus.devices ≡ length s.bus.devices
  unfolding rebuild
  length-rebuild s =
      let b = s.bus in
      let open_bus = i2c (new_master_bus b.port b.sda_pin b.scl_pin) in
      let s' : Sys = record {
        bus = record b { bus_handle = P.value s.trace open_bus };
        trace = open_bus ∷ s.trace;
      } in
      elim (Err-cases (P.status s.trace open_bus)) [
        | inl e ↦ rw (e, rebuild) (length-reattach s')
        | inr (c, e) ↦ rw (e, rebuild)
      ]

  length-recover_locked :
      (s : Sys) → length (recover_locked P s).1.bus.devices ≡ length s.bus.devices
  unfolding recover_locked teardown
  length-recover_locked s =
      let b = (teardown s).bus in
      let t = (clock_out P b.sda_pin b.scl_pin recovery_clocks 0 (teardown s).trace).1 in
      let last : Call = gpio (get_level b.sda_pin) in
      let s' : Sys = record { bus = b; trace = stop_condition b (last ∷ t) } in
      elim (Bool-cases (P.value t last == 0)) [ inl e ↦ rw e | inr e ↦ rw e (length-rebuild s') ]

  recover_locked-IsValid : (s : Sys) → IsValid s.bus → IsValid (recover_locked P s).1.bus
  recover_locked-IsValid s v =
      let same = (recover_locked-IsStep P s).same in ground (arith, same, length-recover_locked s)

  after_timeout-IsValid :
      (x : Transfer) (buf : List ℕ) (s : Sys)
      → IsValid s.bus
      → IsValid (after_timeout P x buf s).2.bus
  unfolding after_timeout retry
  after_timeout-IsValid x buf s v = ground (arith, recover_locked-IsValid s v)

  count_error-IsValid : (s : Sys) → IsValid s.bus → IsValid (count_error s).bus
  count_error-IsValid s v = ground arith

  transfer_locked-IsValid :
      (x : Transfer) (s : Sys) → IsValid s.bus → IsValid (transfer_locked P x s).2.bus
  unfolding transfer_locked
  transfer_locked-IsValid x s v =
      let c = i2c (transfer x) in
      let s1 = count_error (log_call c s) in
      ground (arith, after_timeout-IsValid x (P.reply s.trace c) s1 (count_error-IsValid s v))

  -- A transfer keeps the bus object well-formed, whatever the driver answers.
  pub transfer_with-IsValid :
      (p : Pointer) (x : Transfer) (s : Sys) → IsValid s.bus → IsValid (transfer_with P p x s).2.bus
  unfolding transfer_with
  transfer_with-IsValid p x s v = ground (
    arith,
    transfer_locked-IsValid x (log_call (mutex (acquire s.bus.lock)) s) v,
    count_error-IsValid s v,
  )

  pub scan-IsValid : (p : Pointer) (s : Sys) → IsValid s.bus → IsValid (scan P p s).2.bus
  unfolding scan
  scan-IsValid p s v = ground arith
