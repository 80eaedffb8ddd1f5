-- ===== src/Tests/ConverterTests.antt =====
-- The converter on concrete inputs.
use fortunelabs_mainboard_l.Prelude.{◌≡◌, refl}
use fortunelabs_mainboard_l.Platform.{valid}
use fortunelabs_mainboard_l.Bus.Transfers
use fortunelabs_mainboard_l.Ads1115.Words.{
  ChannelConfig, build_config_word, decode, decode-build_config_word, join_bytes,
}
use fortunelabs_mainboard_l.Ads1115.Device.{read, finish_read, read_register, write_register}
use fortunelabs_mainboard_l.Ads1115.Conversion.{IsConversion, read-IsConversion}
use fortunelabs_mainboard_l.Tests.Boards.{healthy, converter}

abbrev fast : ChannelConfig
fast = record { channel = 4; pga = 1; data_rate = 7 }

reset_value : build_config_word (record { channel = 0; pga = 2; data_rate = 4 }) ≡ 0x8583
unfolding build_config_word
reset_value = refl

decode-build_config_word_example :
    decode (build_config_word fast)
    ≡ record { os = 1; mux = 4; pga = 1; mode = 1; data_rate = 7; comparator = 3 }
decode-build_config_word_example = decode-build_config_word fast

read-IsConversion_example :
    IsConversion healthy 4 converter 0x1234 (read healthy valid 4 valid converter).2
unfolding read finish_read read_register write_register join_bytes Transfers.write
    Transfers.write_read Transfers.transfer_with Transfers.transfer_locked
read-IsConversion_example = read-IsConversion healthy valid valid 4 converter refl
