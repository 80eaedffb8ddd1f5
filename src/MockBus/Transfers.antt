-- ===== src/MockBus/Transfers.antt =====
-- firmware/test/mock_i2c_bus.c: the functions that stand in for those of firmware/main/bus/i2c_bus.c.
-- The transfers read neither the bus nor the device handle.
use fortunelabs_mainboard_l.Prelude.{
  ℕ, ◌+◌, ◌%◌, true, false, not, ◌||◌, List, [], ◌∷◌, Option, some, if◌then◌else◌, ◌==◌, ltb,
  get_or, set,
}
use fortunelabs_mainboard_l.Platform.{
  Err, ok, err, invalid_arg, invalid_state, Pointer, is_null, valid,
}
use fortunelabs_mainboard_l.Bus.State.{Bus}
use fortunelabs_mainboard_l.Ads1115.Words.{join_bytes, high_byte, low_byte}
use fortunelabs_mainboard_l.MockBus.State.{
  State, op_write, op_read, op_write_read, reg8_count, reg16_count, log_append, resolve_fault,
}

-- A register write, in bounds or not.
abbrev pub write8 : ℕ → ℕ → State → State
write8 reg v s = if ltb reg reg8_count then record s { regs8 = set s.regs8 reg v } else s

abbrev pub write16 : ℕ → ℕ → State → State
write16 reg v s = if ltb reg reg16_count then record s { regs16 = set s.regs16 reg v } else s

-- The payload of a write by its shape; NULL is `none`.
unfoldable pub write_shape : Option (List ℕ) → State → Err × State
write_shape (some (reg ∷ v ∷ [])) s = (ok, log_append op_write reg v false (write8 reg v s))
write_shape (some (reg ∷ high ∷ low ∷ [])) s =
    let v = join_bytes high low in (ok, log_append op_write reg v true (write16 reg v s))
write_shape _ s = (err invalid_arg, s)

-- `i2c_bus_write`
unfoldable pub write : Option (List ℕ) → State → Err × State
write bytes s =
    let (forced, s1) = resolve_fault s in
    elim forced [ err c ↦ (err c, s1) | ok ↦ write_shape bytes s1 ]

-- `i2c_bus_read`: the bytes that are stored, if any are.
unfoldable pub read : Pointer → ℕ → State → Err × List ℕ × State
read p len s =
    let (forced, s1) = resolve_fault s in
    elim forced [
      | err c ↦ (err c, [], s1)
      | ok ↦
          if is_null p || len == 0
          then (err invalid_arg, [], s1)
          else (ok, 0 ∷ [], log_append op_read 0 0 false s1)
    ]

-- The value of a register, 0 out of bounds.
abbrev pub read8 : ℕ → State → ℕ
read8 reg s = if ltb reg reg8_count then get_or s.regs8 reg 0 else 0

abbrev pub read16 : ℕ → State → ℕ
read16 reg s = if ltb reg reg16_count then get_or s.regs16 reg 0 else 0

-- A register read by the number of bytes wanted.
unfoldable pub read_shape : ℕ → ℕ → State → Err × List ℕ × State
read_shape reg n s =
    if n == 1
    then (ok, read8 reg s ∷ [], log_append op_write_read reg (read8 reg s) false s)
    else (if n == 2
        then (
          ok,
          high_byte (read16 reg s) ∷ low_byte (read16 reg s) ∷ [],
          log_append op_write_read reg (read16 reg s) true s,
        )
        else (err invalid_arg, [], s))

-- The checks of the arguments of `i2c_bus_write_read`.
unfoldable pub write_read_shape : Option (List ℕ) → Pointer → ℕ → State → Err × List ℕ × State
write_read_shape (some (reg ∷ more)) valid n s = read_shape reg n s
write_read_shape _ _ n s = (err invalid_arg, [], s)

-- `i2c_bus_write_read`: the bytes that are stored, if any are.
unfoldable pub write_read : Option (List ℕ) → Pointer → ℕ → State → Err × List ℕ × State
write_read bytes p n s =
    let (forced, s1) = resolve_fault s in
    elim forced [ err c ↦ (err c, [], s1) | ok ↦ write_read_shape bytes p n s1 ]

-- The handle that every device is given, the address of a static byte.
abbrev pub fake_handle : ℕ
fake_handle = 1

-- `i2c_bus_init`, which does not read its configuration.
unfoldable pub init : Pointer → Bus → Err × Bus
init p b =
    if is_null p
    then (err invalid_arg, b)
    else (ok, record b { initialized = true; device_count = 0; error_count = 0 })

-- `i2c_bus_deinit`
unfoldable pub deinit : Pointer → Bus → Err × Bus
deinit p b =
    if is_null p || not b.initialized
    then (err invalid_state, b)
    else (ok, record b { initialized = false })

-- `i2c_bus_add_device`: `handle` is what `*out` holds before the call.
unfoldable pub add_device : Pointer → Pointer → ℕ → Bus → Err × ℕ × Bus
add_device p out handle b =
    if is_null p || is_null out
    then (err invalid_arg, handle, b)
    else (ok, fake_handle, record b { device_count = (b.device_count + 1) % 256 })

-- `i2c_bus_scan`
unfoldable pub scan : Pointer → Bus → Err
scan p b = if is_null p || not b.initialized then err invalid_state else ok

-- `i2c_bus_get_error_count`, `i2c_bus_get_device_count`
unfoldable pub get_error_count : Pointer → Bus → ℕ
get_error_count p b = if not (is_null p) then b.error_count else 0

unfoldable pub get_device_count : Pointer → Bus → ℕ
get_device_count p b = if not (is_null p) then b.device_count else 0
