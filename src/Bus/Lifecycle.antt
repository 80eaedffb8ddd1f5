-- ===== src/Bus/Lifecycle.antt =====
-- firmware/main/bus/i2c_bus.c: `i2c_bus_init`, `i2c_bus_deinit`, `i2c_bus_add_device`.
use fortunelabs_mainboard_l.Prelude.{
  ℕ, ◌+◌, ◌%◌, true, false, not, ◌||◌, ◌∷◌, if◌then◌else◌, ◌==◌, leb, set,
}
use fortunelabs_mainboard_l.Platform.{
  Err, ok, err, no_mem, invalid_arg, invalid_state, Pointer, is_null, Trace, Platform, mutex, i2c,
  create, delete, new_master_bus, del_master_bus, bus_add_device,
}
use fortunelabs_mainboard_l.Bus.State.{
  Entry, BusConfig, Sys, zero_bus, max_devices, put_bus, log_call,
}

module _ (P : Platform) where
  open P use {status, value, reply}

  -- `i2c_bus_init`
  unfoldable pub init : Pointer → Pointer → BusConfig → Sys → Err × Sys
  init p q cfg s =
      if is_null p || is_null q
      then (err invalid_arg, s)
      else (let m = value s.trace (mutex create) in
          let t1 : Trace = mutex create ∷ s.trace in
          let open_bus = i2c (new_master_bus cfg.port cfg.sda_pin cfg.scl_pin) in
          let b1 = record zero_bus { lock = m } in
          let b2 = record b1 { bus_handle = value t1 open_bus } in
          if m == 0
          then (err no_mem, record { bus = b1; trace = t1 })
          else elim (status t1 open_bus) [
            | err c ↦ (err c, record { bus = b2; trace = mutex (delete m) ∷ open_bus ∷ t1 })
            | ok ↦ (
              ok,
              record {
                bus = record b2 {
                  sda_pin = cfg.sda_pin;
                  scl_pin = cfg.scl_pin;
                  port = cfg.port;
                  initialized = true;
                };
                trace = open_bus ∷ t1;
              },
            )
          ])

  -- `i2c_bus_deinit`. The handles keep their values, as in the source.
  unfoldable pub deinit : Pointer → Sys → Err × Sys
  deinit p s =
      if is_null p || not s.bus.initialized
      then (err invalid_state, s)
      else (let del = i2c (del_master_bus s.bus.bus_handle) in
          let t1 : Trace = del ∷ s.trace in
          let t2 : Trace = if s.bus.lock == 0 then t1 else mutex (delete s.bus.lock) ∷ t1 in
          (status s.trace del, record { bus = record (s.bus) { initialized = false }; trace = t2 }))

  -- `i2c_bus_add_device`: `handle` is what `*out` holds before the call. The result is the error,
  -- what `*out` holds after the call, and the new state.
  unfoldable pub add_device : Pointer → ℕ → ℕ → Pointer → ℕ → Sys → Err × ℕ × Sys
  add_device p addr scl_hz out handle s =
      if is_null p || not s.bus.initialized || is_null out
      then (err invalid_arg, handle, s)
      else (if leb max_devices s.bus.device_count
          then (err no_mem, handle, s)
          else (let add = i2c (bus_add_device s.bus.bus_handle addr scl_hz) in
              let h = value s.trace add in
              let entry : Entry = record { addr = addr; handle = h; active = true } in
              elim (status s.trace add) [
                | err c ↦ (err c, h, log_call add s)
                | ok ↦ (
                  ok,
                  h,
                  put_bus
                      (record (s.bus) {
                        devices = set s.bus.devices s.bus.device_count entry;
                        device_count = (s.bus.device_count + 1) % 256;
                      })
                      (log_call add s),
                )
              ]))
