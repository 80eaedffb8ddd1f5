-- ===== src/SensorAds1115/Adapter.antt =====
-- firmware/main/drivers/sensor/sensor_ads1115.c and the structs of hal/sensor_driver.h. The type of
-- `float`, its product, the conversion of an `int16_t` and the constants `x / 32768.0f`, given by
-- `x` in millivolts, are parameters.
use fortunelabs_mainboard_l.Prelude.{
  ℕ, zero, suc, ◌+◌, ◌/◌, ◌%◌, ◌^◌, Bool, true, false, not, ◌||◌, List, if◌then◌else◌, ltb, get_or,
}
use fortunelabs_mainboard_l.Prelude.Int.{ℤ, signed16}
use fortunelabs_mainboard_l.Platform.{
  Err, ok, err, invalid_arg, invalid_state, Pointer, valid, is_null, Platform, timer_us,
}
use fortunelabs_mainboard_l.Bus.State.{log_call}
use fortunelabs_mainboard_l.Ads1115.Words.{ChannelConfig, channel_0}
use fortunelabs_mainboard_l.Ads1115.Device as Converter

abbrev pub scl_hz : ℕ
scl_hz = 100000

-- `sensor_config_t`; `extra` points to the channel configurations.
pub record Config : Type 0 where
  pub bus : Pointer
  pub i2c_addr : ℕ
  pub channel : ℕ
  pub extra : Pointer
  pub channel_config : List ChannelConfig

-- The full-scale range of `_ads1115_lsb_volts` in millivolts, by the gain code.
abbrev pub full_scale_mv : ℕ → ℕ
full_scale_mv zero = 6144
full_scale_mv (suc zero) = 4096
full_scale_mv (suc (suc zero)) = 2048
full_scale_mv (suc (suc (suc zero))) = 1024
full_scale_mv (suc (suc (suc (suc zero)))) = 512
full_scale_mv (suc (suc (suc (suc (suc zero))))) = 256
full_scale_mv (suc (suc (suc (suc (suc (suc _)))))) = 4096

-- The channel configuration of an index of the array that `extra` points to.
abbrev pub channel_at : List ChannelConfig → ℕ → ChannelConfig
channel_at cs i = get_or cs i Converter.zero_channel

module _ {F : Type 0} (volts_per_code : ℕ → F) (from_int : ℤ → F) (mul : F → F → F) where
  -- `sensor_reading_t`
  pub record Reading : Type 0 where
    pub channel : ℕ
    pub value : F
    pub timestamp_ms : ℕ

  -- The static variables of the file, with the device and the bus. `has_driver` is `s_drv != NULL`.
  pub record State : Type 0 where
    pub conv : Converter.State
    pub has_driver : Bool
    pub active_channel : ℕ
    pub active_channel_id : ℕ
    pub active_lsb_volts : F
    pub initialized : Bool

  -- `ads1115_sensor_deinit`
  unfoldable pub deinit : State → State
  deinit s = record s {
    conv = if not s.has_driver || not s.initialized then s.conv else Converter.deinit valid s.conv;
    initialized = false;
  }

  module _ (P : Platform) where
    -- `ads1115_sensor_init`
    unfoldable pub init : Pointer → Config → State → Err × State
    init p cfg s =
        if s.initialized
        then (ok, s)
        else (if is_null p || is_null cfg.bus || is_null cfg.extra || ltb 3 cfg.channel
            then (err invalid_arg, s)
            else (let ads_cfg : Converter.Config = record {
              bus = cfg.bus;
              addr = cfg.i2c_addr;
              scl_hz = scl_hz;
              channel_config = cfg.channel_config;
            } in
                let (r, conv) = Converter.init P valid valid ads_cfg s.conv in
                elim r [
                  | err c ↦ (err c, record s { conv = conv; has_driver = true })
                  | ok ↦ (
                    ok,
                    record {
                      conv = conv;
                      has_driver = true;
                      active_channel_id = cfg.channel;
                      active_channel = channel_0 + cfg.channel;
                      active_lsb_volts = volts_per_code (
                          full_scale_mv
                            (ChannelConfig.pga (channel_at cfg.channel_config cfg.channel)));
                      initialized = true;
                    },
                  )
                ]))

    -- `ads1115_sensor_read`: the reading stored through `out`, which holds `old` before.
    unfoldable pub read : Pointer → Reading → State → Err × Reading × State
    read out old s =
        if not s.initialized
        then (err invalid_state, old, s)
        else (if is_null out
            then (err invalid_arg, old, s)
            else (let (r, raw, conv) = Converter.read P valid s.active_channel valid s.conv in
                elim r [
                  | err c ↦ (err c, old, record s { conv = conv })
                  | ok ↦ (
                    ok,
                    record {
                      channel = s.active_channel_id;
                      value = mul (from_int (signed16 raw)) s.active_lsb_volts;
                      timestamp_ms = P.value conv.sys.trace timer_us / 1000 % 2 ^ 32;
                    },
                    record s { conv = record conv { sys = log_call timer_us conv.sys } },
                  )
                ]))
