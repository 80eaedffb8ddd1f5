-- ===== src/Tests/Boards.antt =====
-- Platforms and states for the tests.
use fortunelabs_mainboard_l.Prelude.{
  ℕ, ◌*◌, ◌/◌, true, List, [], ◌∷◌, if◌then◌else◌, ltb, length, replicate,
}
use fortunelabs_mainboard_l.Platform.{
  Err, ok, Call, Platform, i2c, transfer, gpio, get_level, transmit, valid,
}
use fortunelabs_mainboard_l.Bus.State.{Bus, Sys, zero_entry, zero_bus}
use fortunelabs_mainboard_l.Mcp23017.Device
use fortunelabs_mainboard_l.Ads1115.Device as Converter
use fortunelabs_mainboard_l.Ads1115.Words.{ChannelConfig}

-- Every call succeeds and answers with 1 or with the bytes 0x12, 0x34.
abbrev pub healthy : Platform
healthy = record {
  status = λ t c. ok;
  value = λ t c. 1;
  reply = λ t c. 0x12 ∷ 0x34 ∷ [];
  ticks = λ n. n * 100 / 1000;
  valid_output = λ pin. ltb pin 46;
}

abbrev pub transfer_status : Err → Call → Err
transfer_status e (i2c (transfer x)) = e
transfer_status e _ = ok

-- Every transfer fails with the given error; a held SDA line reads as the given level.
abbrev pub failing : Err → ℕ → Platform
failing e level = record healthy { status = λ t c. transfer_status e c; value = λ t c. answer c }
  where
    answer : Call → ℕ
    answer (gpio (get_level pin)) = level
    answer _ = 1

-- A bus with one device, at 0x20 with handle 7.
abbrev pub board_bus : Bus
board_bus = record zero_bus {
  bus_handle = 5;
  lock = 3;
  devices = record { addr = 0x20; handle = 7; active = true } ∷ replicate 7 zero_entry;
  device_count = 1;
  sda_pin = 18;
  scl_pin = 19;
  initialized = true;
}

abbrev pub board : Sys
board = record { bus = board_bus; trace = [] }

-- An expander that was started with all pins as inputs, on that bus.
abbrev pub expander : Device.State
expander = record {
  dev = record Device.zero_device {
    bus_handle = valid;
    dev_handle = 7;
    dev_addr = 0x20;
    is_initialized = true;
    dir_a = 0xFF;
    dir_b = 0xFF;
  };
  sys = record board {
    trace =
        i2c (transfer (transmit 7 (0x15 ∷ 0 ∷ [])))
        ∷ i2c (transfer (transmit 7 (0x14 ∷ 0 ∷ [])))
        ∷ i2c (transfer (transmit 7 (0x01 ∷ 0xFF ∷ [])))
        ∷ i2c (transfer (transmit 7 (0x00 ∷ 0xFF ∷ [])))
        ∷ [];
  };
}

abbrev pub channels : List ChannelConfig
channels = replicate 4 (record { channel = 4; pga = 1; data_rate = 5 })

abbrev pub converter : Converter.State
converter = record {
  dev = record Converter.zero_device {
    bus = valid;
    handle = 7;
    channel_config = channels;
    initialized = true;
  };
  sys = board;
}

-- Healthy for the first calls, then every transfer fails.
abbrev pub fails_after : ℕ → Err → Platform
fails_after n e = record healthy {
  status = λ t c. if ltb (length t) n then ok else transfer_status e c;
}
