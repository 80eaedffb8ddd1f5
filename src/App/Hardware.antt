-- ===== src/App/Hardware.antt =====
-- firmware/main/main.c: the steps [5] to [7] of `app_main`, from the bus to the last driver. The
-- drivers share one bus and one trace, which each step takes up and hands on.
use fortunelabs_mainboard_l.Prelude.{ℕ, Bool, false, List, [], ◌∷◌, some, if◌then◌else◌}
use fortunelabs_mainboard_l.Prelude.Int.{ℤ}
use fortunelabs_mainboard_l.Platform.{Err, ok, err, Platform, valid}
use fortunelabs_mainboard_l.Bus.State.{Sys, BusConfig}
use fortunelabs_mainboard_l.Bus.Lifecycle
use fortunelabs_mainboard_l.Bus.Scan.{scan}
use fortunelabs_mainboard_l.Ads1115.Words.{ChannelConfig}
use fortunelabs_mainboard_l.SensorAds1115.Adapter
use fortunelabs_mainboard_l.Outputs.StatusLed
use fortunelabs_mainboard_l.Outputs.ActuatorDummy
use fortunelabs_mainboard_l.Ssd1306.Device as Display

abbrev pub bus_config : BusConfig
bus_config = record { sda_pin = 18; scl_pin = 19; port = 0 }

-- `ads_sensor_cfg`
abbrev pub sensor_channels : List ChannelConfig
sensor_channels =
    record { channel = 4; pga = 1; data_rate = 4 }
    ∷ record { channel = 5; pga = 2; data_rate = 3 }
    ∷ record { channel = 6; pga = 1; data_rate = 4 }
    ∷ record { channel = 7; pga = 2; data_rate = 3 }
    ∷ []

abbrev pub sensor_config : Adapter.Config
sensor_config = record {
  bus = valid;
  i2c_addr = 0x48;
  channel = 0;
  extra = valid;
  channel_config = sensor_channels;
}

abbrev pub led_config : StatusLed.LedConfig
led_config = record { gpio_num = StatusLed.default_gpio; active_low = false }

abbrev pub display_config : Display.Config
display_config = record { bus = valid; i2c_addr = 0x3C; width = 128; height = 64 }

-- How the steps end: all done, a failed `ESP_ERROR_CHECK`, or `esp_restart`.
pub data BringUp : Type 0 where
  up aborted restarted : BringUp

-- A step under `ESP_ERROR_CHECK`.
unfoldable pub checked : {S : Type 0} → Err × S → (S → BringUp × S) → BringUp × S
checked (ok, h) k = k h
checked (err c, h) k = (aborted, h)

module _ {F : Type 0} (volts_per_code : ℕ → F) (from_int : ℤ → F) (mul : F → F → F) where
  abbrev pub Sensor : Type 0
  Sensor = Adapter.State volts_per_code from_int mul

  -- The drivers and the bus, whose trace is that of all calls.
  pub record Hardware : Type 0 where
    pub sys : Sys
    pub sensor : Sensor
    pub actuator : ActuatorDummy.State
    pub led : StatusLed.State
    pub display : Display.State

  module _ (P : Platform) where
    -- `i2c_bus_init`
    unfoldable pub start_bus : Hardware → Err × Hardware
    start_bus h =
        let (r, y) = Lifecycle.init P valid valid bus_config h.sys in (r, record h { sys = y })

    -- `i2c_bus_scan`, whose result is not read.
    unfoldable pub scan_bus : Hardware → Hardware
    scan_bus h = record h { sys = (scan P valid h.sys).2 }

    -- `sensor_ads1115_driver.init`
    unfoldable pub start_sensor : Hardware → Err × Hardware
    start_sensor h =
        let before = record (h.sensor) { conv = record (h.sensor.conv) { sys = h.sys } } in
        let (r, s) = Adapter.init volts_per_code from_int mul P valid sensor_config before in
        (r, record h { sensor = s; sys = s.conv.sys })

    -- `actuator_dummy_driver.init`
    unfoldable pub start_actuator : Hardware → Err × Hardware
    start_actuator h =
        let (r, s) = ActuatorDummy.init P (record (h.actuator) { trace = h.sys.trace }) in
        (r, record h { actuator = s; sys = record (h.sys) { trace = s.trace } })

    -- `status_led_driver.init`
    unfoldable pub start_led : Hardware → Err × Hardware
    start_led h =
        let (r, s) = StatusLed.init P (some led_config) (record (h.led) { trace = h.sys.trace }) in
        (r, record h { led = s; sys = record (h.sys) { trace = s.trace } })

    -- `ssd1306_driver.init`
    unfoldable pub start_display : Hardware → Err × Hardware
    start_display h =
        let (r, s) = Display.init_hw P valid display_config (record (h.display) { sys = h.sys }) in
        (r, record h { display = s; sys = s.sys })

    -- The steps from the drivers on.
    unfoldable pub start_drivers : Hardware → BringUp × Hardware
    start_drivers h = checked (start_sensor h) (λ h1.
        checked (start_actuator h1)
          (λ h2. checked (start_led h2) (λ h3. checked (start_display h3) (λ h4. (up, h4)))))

    -- `app_main` from `i2c_bus_init` to the last driver; `queues` tells whether the three queues
    -- could be made.
    unfoldable pub bring_up : Bool → Hardware → BringUp × Hardware
    bring_up queues h =
        checked (start_bus h)
          (λ h1. if queues then start_drivers (scan_bus h1) else (restarted, scan_bus h1))
