-- ===== src/Tests/SensorTests.antt =====
-- The sensor adapter on concrete inputs, with natural numbers for its numbers.
use fortunelabs_mainboard_l.Prelude.{ℕ, ◌*◌, ◌≡◌, refl, true, arith}
use fortunelabs_mainboard_l.Prelude.Int.{ℤ}
use fortunelabs_mainboard_l.Platform.{err, fail, valid}
use fortunelabs_mainboard_l.Bus.Transfers
use fortunelabs_mainboard_l.Ads1115.Device as Converter
use fortunelabs_mainboard_l.SensorAds1115.Adapter.{Config, Reading, State, read}
use fortunelabs_mainboard_l.SensorAds1115.Laws.{IsReady, IsSample, read-IsSample, read_error}
use fortunelabs_mainboard_l.Tests.Boards.{healthy, failing, converter, channels}

abbrev pub volts : ℕ → ℕ
volts mv = mv

abbrev pub magnitude : ℤ → ℕ
magnitude z = 7

abbrev pub times : ℕ → ℕ → ℕ
times a b = a * b

abbrev adapter : State volts magnitude times
adapter = record {
  conv = converter;
  has_driver = true;
  active_channel = 5;
  active_channel_id = 1;
  active_lsb_volts = 4096;
  initialized = true;
}

abbrev settings : Config
settings = record {
  bus = valid;
  i2c_addr = 0x48;
  channel = 2;
  extra = valid;
  channel_config = channels;
}

abbrev before : Reading volts magnitude times
before = record { channel = 0; value = 0; timestamp_ms = 0 }

adapter-IsReady : IsReady volts magnitude times adapter
adapter-IsReady = record { device = λ e. refl; in_range = λ e. omega arith; resolved = λ e. refl }

read-IsSample_example :
    let (r, v, s') = read volts magnitude times healthy valid before adapter in
    (raw : ℕ) × IsSample volts magnitude times healthy adapter v s' raw
unfolding read Converter.read Converter.finish_read Converter.read_register Converter.write_register
    Transfers.write Transfers.write_read Transfers.transfer_with Transfers.transfer_locked
read-IsSample_example = read-IsSample volts magnitude times healthy valid before adapter refl

read_error_kept :
    (read volts magnitude times (failing (err fail) 1) valid before adapter).1 ≡ before
unfolding read Converter.read Converter.finish_read Converter.read_register Converter.write_register
    Transfers.write Transfers.write_read Transfers.transfer_with Transfers.transfer_locked
read_error_kept = read_error volts magnitude times (failing (err fail) 1) valid before adapter refl
