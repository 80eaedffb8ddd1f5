-- ===== src/Ads1115/Device.antt =====
-- firmware/main/drivers/ic/ads1115.c: the operations of the converter.
use fortunelabs_mainboard_l.Prelude.{
  ℕ, ◌+◌, ◌-◌, Bool, true, false, not, ◌||◌, List, [], ◌∷◌, if◌then◌else◌, get_or, replicate,
}
use fortunelabs_mainboard_l.Platform.{
  Err, ok, err, invalid_arg, invalid_state, Pointer, null, valid, is_null, is_ok, Platform, byte_at,
  delay_ticks,
}
use fortunelabs_mainboard_l.Bus.State.{Sys, log_call}
use fortunelabs_mainboard_l.Bus.Lifecycle.{add_device}
use fortunelabs_mainboard_l.Bus.Transfers.{write, write_read}
use fortunelabs_mainboard_l.Ads1115.Words.{
  ChannelConfig, channel_0, channel_valid, conversion_to_ms, conversion_margin_ms, reg_config,
  reg_conversion, config_reset, build_config_word, high_byte, low_byte, join_bytes,
}

-- `ads1115_config_t`
pub record Config : Type 0 where
  pub bus : Pointer
  pub addr : ℕ
  pub scl_hz : ℕ
  pub channel_config : List ChannelConfig

-- `ads1115_dev_t`
pub record Device : Type 0 where
  pub bus : Pointer
  pub handle : ℕ
  pub channel_config : List ChannelConfig
  pub initialized : Bool

-- The driver instance, the bus and the calls made so far.
pub record State : Type 0 where
  pub dev : Device
  pub sys : Sys

abbrev pub put_sys : Sys → State → State
put_sys y s = record s { sys = y }

abbrev pub zero_channel : ChannelConfig
zero_channel = record { channel = 0; pga = 0; data_rate = 0 }

-- `memset(dev, 0, sizeof(ads1115_dev_t))`
abbrev pub zero_device : Device
zero_device = record {
  bus = null;
  handle = 0;
  channel_config = replicate 4 zero_channel;
  initialized = false;
}

-- The configuration of a channel: `dev->channel_config[channel - ADS1115_CHANNEL_0]`.
abbrev pub config_of : ℕ → Device → ChannelConfig
config_of channel d = get_or d.channel_config (channel - channel_0) zero_channel

-- `delay_ms` of a read. A rate above 7, which C would read past the table, gets no entry.
abbrev pub conversion_delay_ms : ChannelConfig → ℕ
conversion_delay_ms c = get_or conversion_to_ms c.data_rate 0 + conversion_margin_ms

-- `ads1115_deinit`
unfoldable pub deinit : Pointer → State → State
deinit p s = if is_null p then s else record s { dev = record (s.dev) { initialized = false } }

module _ (P : Platform) where
  -- `_ads1115_write_register`
  unfoldable pub write_register : ℕ → ℕ → State → Err × State
  write_register reg v s =
      let (r, y) = write P s.dev.bus s.dev.handle (reg ∷ high_byte v ∷ low_byte v ∷ []) s.sys in
      (r, put_sys y s)

  -- `_ads1115_read_register`: the value stored through `out_value`, if it is.
  unfoldable pub read_register : ℕ → State → Err × ℕ × State
  read_register reg s =
      let (r, buf, y) = write_read P s.dev.bus s.dev.handle (reg ∷ []) 2 s.sys in
      (r, if is_ok r then join_bytes (byte_at buf 0) (byte_at buf 1) else 0, put_sys y s)

  -- `ads1115_init`
  unfoldable pub init : Pointer → Pointer → Config → State → Err × State
  init p q cfg s =
      if is_null p || is_null q || is_null cfg.bus
      then (err invalid_arg, s)
      else (let (r, h, y) = add_device P cfg.bus cfg.addr cfg.scl_hz valid 0 s.sys in
          let d = record zero_device { handle = h } in
          elim r [
            | err c ↦ (err c, record { dev = d; sys = y })
            | ok ↦
                let s1 : State = record {
                  dev = record d { bus = cfg.bus; channel_config = cfg.channel_config };
                  sys = y;
                } in
                let (r', s2) = write_register reg_config config_reset s1 in
                (
                  r',
                  if is_ok r'
                      then record s2 { dev = record (s2.dev) { initialized = true } }
                      else s2,
                )
          ])

  -- The second half of a read: the wait and the result register.
  unfoldable pub finish_read : ChannelConfig → State → Err × ℕ × State
  finish_read c s =
      read_register reg_conversion
        (put_sys (log_call (delay_ticks (P.ticks (conversion_delay_ms c))) s.sys) s)

  -- `ads1115_read`: the value stored through `out_raw`, if it is.
  unfoldable pub read : Pointer → ℕ → Pointer → State → Err × ℕ × State
  read p channel out s =
      if is_null p || is_null out
      then (err invalid_arg, 0, s)
      else (if not s.dev.initialized
          then (err invalid_state, 0, s)
          else (if not (channel_valid channel)
              then (err invalid_arg, 0, s)
              else (let c = config_of channel s.dev in
                  let (r, s1) = write_register reg_config (build_config_word c) s in
                  elim r [ err e ↦ (err e, 0, s1) | ok ↦ finish_read c s1 ])))

  -- `ads1115_reset`
  unfoldable pub reset : Pointer → State → Err × State
  reset p s =
      if is_null p
      then (err invalid_arg, s)
      else (if not s.dev.initialized
          then (err invalid_state, s)
          else write_register reg_config config_reset s)
