-- ===== src/Bus/Recovery.antt =====
-- firmware/main/bus/i2c_bus.c: `_i2c_bus_recover_locked`.
use Prim.Native.Nat.{bit_or}
use fortunelabs_mainboard_l.Prelude.{
  ℕ, zero, suc, ◌+◌, ◌^◌, true, false, List, [], ◌∷◌, if◌then◌else◌, ◌==◌,
}
use fortunelabs_mainboard_l.Platform.{
  Err, ok, err, invalid_state, Call, Trace, Platform, i2c, gpio, delay_us, new_master_bus,
  del_master_bus, bus_add_device, config, set_level, get_level,
}
use fortunelabs_mainboard_l.Bus.State.{Entry, Bus, Sys, pulse, recovery_clocks, half_period_us}

-- The bus handle is deleted and both lines are released.
unfoldable pub teardown : Sys → Sys
teardown s =
    let b = s.bus in
    let t : Trace =
      if b.bus_handle == 0 then s.trace else i2c (del_master_bus b.bus_handle) ∷ s.trace in
    record {
      bus = record b { bus_handle = 0; initialized = false };
      trace =
          delay_us half_period_us
          ∷ gpio (set_level b.sda_pin 1)
          ∷ gpio (set_level b.scl_pin 1)
          ∷ gpio (config (bit_or (2 ^ b.sda_pin) (2 ^ b.scl_pin)))
          ∷ t;
    }

-- The manual STOP condition.
abbrev pub stop_condition : Bus → Trace → Trace
stop_condition b t =
    delay_us half_period_us
    ∷ gpio (set_level b.sda_pin 1)
    ∷ delay_us half_period_us
    ∷ gpio (set_level b.scl_pin 1)
    ∷ delay_us half_period_us
    ∷ gpio (set_level b.sda_pin 0)
    ∷ t

module _ (P : Platform) where
  open P use {status, value}

  -- The `while` loop over SCL pulses: the pulses left in the budget and the pulses made. The level
  -- of SDA is read before the budget is tested.
  unfoldable pub clock_out : ℕ → ℕ → ℕ → ℕ → Trace → ℕ × Trace
  clock_out sda scl zero pulses t = (pulses, gpio (get_level sda) ∷ t)
  clock_out sda scl (suc budget) pulses t =
      let rest = clock_out sda scl budget (pulses + 1) (pulse scl (gpio (get_level sda) ∷ t)) in
      if value t (gpio (get_level sda)) == 0 then rest else (pulses, gpio (get_level sda) ∷ t)

  -- The loop over the first `n` entries of the registry, which stops at the first failure. The
  -- driver stores the new handle in the entry.
  unfoldable pub readd : ℕ → ℕ → List Entry → Trace → Err × List Entry × Trace
  readd h zero es t = (ok, es, t)
  readd h (suc n) [] t = (ok, [], t)
  readd h (suc n) (e ∷ es) t =
      let add = i2c (bus_add_device h e.addr 0) in
      let e' = record e { handle = value t add } in
      let (r, rest, t') = readd h n es (add ∷ t) in
      elim (status t add) [ ok ↦ (r, e' ∷ rest, t') | err c ↦ (err c, e' ∷ es, add ∷ t) ]

  -- From the new bus handle on: the devices are added again, or the new handle is deleted.
  unfoldable pub reattach : Sys → Err × Sys
  reattach s =
      let b = s.bus in
      let (r, es, t) = readd b.bus_handle b.device_count b.devices s.trace in
      elim r [
        | err c ↦ (
          err c,
          record {
            bus = record b { devices = es; bus_handle = 0 };
            trace = i2c (del_master_bus b.bus_handle) ∷ t;
          },
        )
        | ok ↦ (ok, record { bus = record b { devices = es; initialized = true }; trace = t })
      ]

  -- From the released lines on: a new bus handle.
  unfoldable pub rebuild : Sys → Err × Sys
  rebuild s =
      let b = s.bus in
      let open_bus = i2c (new_master_bus b.port b.sda_pin b.scl_pin) in
      let b' = record b { bus_handle = value s.trace open_bus } in
      let s' : Sys = record { bus = b'; trace = open_bus ∷ s.trace } in
      elim (status s.trace open_bus) [ err c ↦ (err c, s') | ok ↦ reattach s' ]

  -- `_i2c_bus_recover_locked`
  unfoldable pub recover_locked : Sys → Err × Sys
  recover_locked s =
      let s1 = teardown s in
      let b = s1.bus in
      let (pulses, t) = clock_out b.sda_pin b.scl_pin recovery_clocks 0 s1.trace in
      let last : Call = gpio (get_level b.sda_pin) in
      if value t last == 0
      then (err invalid_state, record { bus = b; trace = last ∷ t })
      else rebuild (record { bus = b; trace = stop_condition b (last ∷ t) })
