-- ===== src/Bus/State.antt =====
-- firmware/main/bus/i2c_bus.h: the bus object and its device registry; the two getters of
-- firmware/main/bus/i2c_bus.c.
use fortunelabs_mainboard_l.Prelude.{
  ℕ, ◌+◌, ◌%◌, ◌^◌, Bool, false, List, ◌∷◌, if◌then◌else◌, replicate,
}
use fortunelabs_mainboard_l.Platform.{Pointer, is_null, Call, Trace, gpio, delay_us, set_level}

abbrev pub max_devices : ℕ
max_devices = 8

abbrev pub recovery_retry : ℕ
recovery_retry = 1

abbrev pub recovery_clocks : ℕ
recovery_clocks = 9

abbrev pub half_period_us : ℕ
half_period_us = 5

-- `i2c_device_entry_t`. The label, a string that is only printed, is left out.
pub record Entry : Type 0 where
  pub addr : ℕ
  pub handle : ℕ
  pub active : Bool

-- `i2c_bus_config_t`; `clk_hz` is only printed.
pub record BusConfig : Type 0 where
  pub sda_pin : ℕ
  pub scl_pin : ℕ
  pub port : ℕ

-- `i2c_bus_t`. A handle is a number, 0 for NULL.
pub record Bus : Type 0 where
  pub bus_handle : ℕ
  pub lock : ℕ
  pub devices : List Entry
  pub device_count : ℕ  -- uint8_t
  pub error_count : ℕ  -- uint32_t
  pub sda_pin : ℕ
  pub scl_pin : ℕ
  pub port : ℕ
  pub initialized : Bool

-- The bus object and the calls made so far.
pub record Sys : Type 0 where
  pub bus : Bus
  pub trace : Trace

abbrev pub zero_entry : Entry
zero_entry = record { addr = 0; handle = 0; active = false }

-- `memset(bus, 0, sizeof(i2c_bus_t))`
abbrev pub zero_bus : Bus
zero_bus = record {
  bus_handle = 0;
  lock = 0;
  devices = replicate max_devices zero_entry;
  device_count = 0;
  error_count = 0;
  sda_pin = 0;
  scl_pin = 0;
  port = 0;
  initialized = false;
}

abbrev pub log_call : Call → Sys → Sys
log_call c s = record s { trace = c ∷ s.trace }

-- `bus->error_count++`
abbrev pub count_error : Sys → Sys
count_error s = record s { bus = record (s.bus) { error_count = (s.bus.error_count + 1) % 2 ^ 32 } }

abbrev pub put_bus : Bus → Sys → Sys
put_bus b s = record s { bus = b }

-- One SCL pulse of the recovery.
abbrev pub pulse : ℕ → Trace → Trace
pulse scl t =
    delay_us half_period_us
    ∷ gpio (set_level scl 1)
    ∷ delay_us half_period_us
    ∷ gpio (set_level scl 0)
    ∷ t

-- `i2c_bus_get_error_count`, `i2c_bus_get_device_count`
unfoldable pub get_error_count : Pointer → Bus → ℕ
get_error_count p b = if is_null p then 0 else b.error_count

unfoldable pub get_device_count : Pointer → Bus → ℕ
get_device_count p b = if is_null p then 0 else b.device_count
