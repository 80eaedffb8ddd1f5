-- ===== src/App/BringUp.antt =====
-- The steps of `app_main` (firmware/main/main.c) from the bus to the last driver: what is started when
-- they end.
use fortunelabs_mainboard_l.Prelude.{ℕ, ◌≡◌, refl, sym, ap, subst, Bool, true, false, ◌∙◌, arith}
use fortunelabs_mainboard_l.Prelude.Int.{ℤ}
use fortunelabs_mainboard_l.Platform.{Err, ok, err, Platform, valid}
use fortunelabs_mainboard_l.SensorAds1115.Adapter
use fortunelabs_mainboard_l.Outputs.StatusLed
use fortunelabs_mainboard_l.Outputs.ActuatorDummy
use fortunelabs_mainboard_l.Ssd1306.Panel.{Panel}
use fortunelabs_mainboard_l.Ssd1306.Starting.{IsOn, init_hw-IsOn}
use fortunelabs_mainboard_l.App.Hardware.{
  BringUp, up, Hardware, Sensor, checked, start_bus, scan_bus, start_sensor, start_actuator,
  start_led, start_display, start_drivers, bring_up, display_config,
}

pub checked-up :
    {S : Type 0} (x : Err × S) (k : S → BringUp × S)
    → (checked x k).0 ≡ up
    → (x.0 ≡ ok) × (checked x k ≡ k x.1) × ((k x.1).0 ≡ up)
unfolding checked
checked-up (ok, h) k o = (refl, refl, o)
checked-up (err c, h) k o = absurd (cc o)

module _ {F : Type 0} (volts_per_code : ℕ → F) (from_int : ℤ → F) (mul : F → F → F) where
  module _ (P : Platform) where
    -- The statics of a program that has just begun.
    pub record IsReset (h : Hardware volts_per_code from_int mul) : Type 0 where
      pub sensor : h.sensor.initialized ≡ false
      pub actuator : h.actuator.is_initialized ≡ false
      pub led : h.led.is_initialized ≡ false

    start_sensor-ok :
        (h : Hardware volts_per_code from_int mul)
        → let (r, h1) = start_sensor volts_per_code from_int mul P h in
          h.sensor.initialized ≡ false
          → r ≡ ok
          → (h1.sensor.initialized ≡ true)
            × (h1.sensor.active_channel ≡ 4)
            × (h1.actuator ≡ h.actuator)
            × (h1.led ≡ h.led)
    unfolding start_sensor Adapter.init
    start_sensor-ok h n o = ground (arith, n, o)

    start_actuator-ok :
        (h : Hardware volts_per_code from_int mul)
        → let (r, h1) = start_actuator volts_per_code from_int mul P h in
          h.actuator.is_initialized ≡ false
          → r ≡ ok
          → (h1.actuator.is_initialized ≡ true) × (h1.sensor ≡ h.sensor) × (h1.led ≡ h.led)
    unfolding start_actuator ActuatorDummy.init
    start_actuator-ok h n o = ground (arith, n, o)

    start_led-ok :
        (h : Hardware volts_per_code from_int mul)
        → let (r, h1) = start_led volts_per_code from_int mul P h in
          h.led.is_initialized ≡ false
          → r ≡ ok
          → (h1.led.is_initialized ≡ true)
            × (h1.led.gpio_num ≡ 4)
            × (h1.sensor ≡ h.sensor)
            × (h1.actuator ≡ h.actuator)
    unfolding start_led StatusLed.init
    start_led-ok h n o = ground (arith, n, o)

    start_display-ok :
        (first : Panel) (h : Hardware volts_per_code from_int mul)
        → let (r, h1) = start_display volts_per_code from_int mul P h in
          r ≡ ok
          → IsOn P first 128 h1.display
            × (h1.sensor ≡ h.sensor)
            × (h1.actuator ≡ h.actuator)
            × (h1.led ≡ h.led)
    unfolding start_display
    start_display-ok first h o = (
      init_hw-IsOn P first valid display_config (record (h.display) { sys = h.sys }) o,
      refl,
      refl,
      refl,
    )

    -- Every driver is started: the sensor on AIN0, the status LED on its pin, the display on and
    -- awaiting a command.
    pub record IsUp (first : Panel) (h : Hardware volts_per_code from_int mul) : Type 0 where
      pub sensor : h.sensor.initialized ≡ true
      pub channel : h.sensor.active_channel ≡ 4
      pub actuator : h.actuator.is_initialized ≡ true
      pub led : h.led.is_initialized ≡ true
      pub led_pin : h.led.gpio_num ≡ 4
      pub display : IsOn P first 128 h.display

    scan_bus-kept :
        (h : Hardware volts_per_code from_int mul)
        → let h1 = scan_bus volts_per_code from_int mul P h in
          (h1.sensor ≡ h.sensor) × (h1.actuator ≡ h.actuator) × (h1.led ≡ h.led)
    unfolding scan_bus
    scan_bus-kept h = (refl, refl, refl)

    start_bus-kept :
        (h : Hardware volts_per_code from_int mul)
        → let h1 = (start_bus volts_per_code from_int mul P h).1 in
          (h1.sensor ≡ h.sensor) × (h1.actuator ≡ h.actuator) × (h1.led ≡ h.led)
    unfolding start_bus
    start_bus-kept h = (refl, refl, refl)

    start_drivers-IsUp :
        (first : Panel) (h : Hardware volts_per_code from_int mul)
        → IsReset h
        → (start_drivers volts_per_code from_int mul P h).0 ≡ up
        → IsUp first (start_drivers volts_per_code from_int mul P h).1
    unfolding start_drivers
    start_drivers-IsUp first h z o =
        let h1 : Hardware volts_per_code from_int mul =
          (start_sensor volts_per_code from_int mul P h).1 in
        let h2 : Hardware volts_per_code from_int mul =
          (start_actuator volts_per_code from_int mul P h1).1 in
        let h3 : Hardware volts_per_code from_int mul =
          (start_led volts_per_code from_int mul P h2).1 in
        let h4 : Hardware volts_per_code from_int mul =
          (start_display volts_per_code from_int mul P h3).1 in
        let (o1, e1, u1) = checked-up (start_sensor volts_per_code from_int mul P h) _ o in
        let (o2, e2, u2) = checked-up (start_actuator volts_per_code from_int mul P h1) _ u1 in
        let (o3, e3, u3) = checked-up (start_led volts_per_code from_int mul P h2) _ u2 in
        let (o4, e4, u4) = checked-up (start_display volts_per_code from_int mul P h3) _ u3 in
        let (s1, c1, a1, l1) = start_sensor-ok h z.sensor o1 in
        let (a2, s2, l2) =
          start_actuator-ok h1 (ap (λ (s : ActuatorDummy.State). s.is_initialized) a1 ∙ z.actuator)
            o2 in
        let (l3, p3, s3, a3) =
          start_led-ok h2 (ap (λ (s : StatusLed.State). s.is_initialized) (l2 ∙ l1) ∙ z.led) o3 in
        let (d4, s4, a4, l4) = start_display-ok first h3 o4 in
        let sensor_eq : h4.sensor ≡ h1.sensor = s4 ∙ s3 ∙ s2 in
        let end : IsUp first h4 = record {
          sensor = ap (λ (s : Sensor volts_per_code from_int mul). s.initialized) sensor_eq ∙ s1;
          channel =
              ap (λ (s : Sensor volts_per_code from_int mul). s.active_channel) sensor_eq ∙ c1;
          actuator = ap (λ (s : ActuatorDummy.State). s.is_initialized) (a4 ∙ a3) ∙ a2;
          led = ap (λ (s : StatusLed.State). s.is_initialized) l4 ∙ l3;
          led_pin = ap (λ (s : StatusLed.State). s.gpio_num) l4 ∙ p3;
          display = d4;
        } in
        subst (λ (r : BringUp × Hardware volts_per_code from_int mul). IsUp first r.1)
          (sym (e1 ∙ e2 ∙ e3 ∙ e4)) end

    -- If the steps of `app_main` from the bus to the last driver, begun with the statics of a
    -- program that has just started, end without an abort or a restart, then the queues were made
    -- and every driver is started: the sensor on AIN0, the actuator, the status LED on GPIO 4,
    -- and the display with its 128 columns, which awaits a command.
    pub bring_up-IsUp :
        (first : Panel) (queues : Bool) (h : Hardware volts_per_code from_int mul)
        → IsReset h
        → (bring_up volts_per_code from_int mul P queues h).0 ≡ up
        → (queues ≡ true) × IsUp first (bring_up volts_per_code from_int mul P queues h).1
    unfolding bring_up
    bring_up-IsUp first false h z o =
        let (o1, e1, u1) = checked-up (start_bus volts_per_code from_int mul P h) _ o in
        absurd (cc u1)
    bring_up-IsUp first true h z o =
        let h1 : Hardware volts_per_code from_int mul =
          (start_bus volts_per_code from_int mul P h).1 in
        let (o1, e1, u1) = checked-up (start_bus volts_per_code from_int mul P h) _ o in
        let (s, a, l) = start_bus-kept h in
        let (s', a', l') = scan_bus-kept h1 in
        let z' : IsReset (scan_bus volts_per_code from_int mul P h1) = record {
          sensor =
              ap (λ (x : Sensor volts_per_code from_int mul). x.initialized) (s' ∙ s) ∙ z.sensor;
          actuator = ap (λ (x : ActuatorDummy.State). x.is_initialized) (a' ∙ a) ∙ z.actuator;
          led = ap (λ (x : StatusLed.State). x.is_initialized) (l' ∙ l) ∙ z.led;
        } in
        (
          refl,
          subst (λ (r : BringUp × Hardware volts_per_code from_int mul). IsUp first r.1) (sym e1)
              (start_drivers-IsUp first (scan_bus volts_per_code from_int mul P h1) z' u1),
        )
