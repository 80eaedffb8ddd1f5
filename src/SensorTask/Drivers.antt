-- ===== src/SensorTask/Drivers.antt =====
-- firmware/main/hal/sensor_driver.h: the contract of a sensor driver, as a record of operations and of
-- the laws that a client relies on; the two drivers that fill it, and firmware/main/tasks/task_sensor.c
-- over any such driver.
use fortunelabs_mainboard_l.Prelude.{ℕ, ◌≡◌, refl, Bool, true, false, Option, none, some, arith}
use fortunelabs_mainboard_l.Prelude.Int.{ℤ}
use fortunelabs_mainboard_l.Platform.{Err, ok, err, is_ok, Platform, valid}
use fortunelabs_mainboard_l.SensorAds1115.Adapter
use fortunelabs_mainboard_l.SensorDummy as Dummy
use fortunelabs_mainboard_l.SensorDummy.{FloatApi}

-- `sensor_driver_t`, with the configuration of its `init`; `read` gives what is stored through its
-- out-pointer, if it succeeds.
pub record SensorDriver (R : Type 0) : Type 1 where
  pub State : Type 0
  pub is_ready : State → Bool
  pub init : State → Err × State
  pub read : State → Err × Option R × State
  pub deinit : State → State
  -- A start that succeeds makes the driver ready, and a second one does nothing.
  pub init_ready : (s : State) → (init s).0 ≡ ok → is_ready (init s).1 ≡ true
  pub init_again : (s : State) → is_ready s ≡ true → init s ≡ (ok, s)
  -- A driver that is not ready refuses to read, and a read does not change whether it is.
  pub read_refused : (s : State) → is_ready s ≡ false → is_ok (read s).0 ≡ false
  pub read_ready : (s : State) → is_ready (read s).2 ≡ is_ready s
  pub deinit_ready : (s : State) → is_ready (deinit s) ≡ false

-- The reading, if the read succeeds.
abbrev pub if_ok : {R : Type 0} → Err → R → Option R
if_ok ok r = some r
if_ok (err c) r = none

module _ {F : Type 0} (volts_per_code : ℕ → F) (from_int : ℤ → F) (mul : F → F → F) (P : Platform)
    (cfg : Adapter.Config) (old : Adapter.Reading volts_per_code from_int mul) where
  abbrev pub AdsState : Type 0
  AdsState = Adapter.State volts_per_code from_int mul

  abbrev pub ads_init : AdsState → Err × AdsState
  ads_init = Adapter.init volts_per_code from_int mul P valid cfg

  abbrev pub ads_read :
      AdsState → Err × Option (Adapter.Reading volts_per_code from_int mul) × AdsState
  ads_read s =
      let (r, reading, s1) = Adapter.read volts_per_code from_int mul P valid old s in
      (r, if_ok r reading, s1)

  pub ads_init_ready : (s : AdsState) → (ads_init s).0 ≡ ok → (ads_init s).1.initialized ≡ true
  unfolding Adapter.init
  ads_init_ready s o = ground (arith, o)

  pub ads_init_again : (s : AdsState) → s.initialized ≡ true → ads_init s ≡ (ok, s)
  unfolding Adapter.init
  ads_init_again s e = ground (arith, e)

  pub ads_read_refused : (s : AdsState) → s.initialized ≡ false → is_ok (ads_read s).0 ≡ false
  unfolding Adapter.read
  ads_read_refused s e = ground (arith, e)

  pub ads_read_ready : (s : AdsState) → (ads_read s).2.initialized ≡ s.initialized
  unfolding Adapter.read
  ads_read_ready s = ground arith

  pub ads_deinit_ready :
      (s : AdsState) → (Adapter.deinit volts_per_code from_int mul s).initialized ≡ false
  unfolding Adapter.deinit
  ads_deinit_ready s = refl

  -- `sensor_ads1115_driver`
  abbrev pub sensor_ads1115_driver : SensorDriver (Adapter.Reading volts_per_code from_int mul)
  sensor_ads1115_driver = record {
    State = AdsState;
    is_ready = λ s. s.initialized;
    init = ads_init;
    read = ads_read;
    deinit = Adapter.deinit volts_per_code from_int mul;
    init_ready = ads_init_ready;
    init_again = ads_init_again;
    read_refused = ads_read_refused;
    read_ready = ads_read_ready;
    deinit_ready = ads_deinit_ready;
  }

module _ {F : Type 0} (A : FloatApi F) (P : Platform) where
  pub dummy_init_ready :
      (s : Dummy.State F)
      → (Dummy.dummy_init A s).0 ≡ ok
      → (Dummy.dummy_init A s).1.is_initialized ≡ true
  unfolding Dummy.dummy_init
  dummy_init_ready s o = ground arith

  pub dummy_init_again :
      (s : Dummy.State F) → s.is_initialized ≡ true → Dummy.dummy_init A s ≡ (ok, s)
  unfolding Dummy.dummy_init
  dummy_init_again s e = ground (arith, e)

  pub dummy_read_refused :
      (s : Dummy.State F)
      → s.is_initialized ≡ false
      → is_ok (Dummy.dummy_read A P valid s).0 ≡ false
  unfolding Dummy.dummy_read
  dummy_read_refused s e = ground (arith, e)

  pub dummy_read_ready :
      (s : Dummy.State F) → (Dummy.dummy_read A P valid s).2.is_initialized ≡ s.is_initialized
  unfolding Dummy.dummy_read Dummy.sweep
  dummy_read_ready s = ground arith

  pub dummy_deinit_ready : (s : Dummy.State F) → (Dummy.dummy_deinit A s).is_initialized ≡ false
  unfolding Dummy.dummy_deinit
  dummy_deinit_ready s = refl

  -- `sensor_dummy_driver`
  abbrev pub sensor_dummy_driver : SensorDriver (Dummy.Reading F)
  sensor_dummy_driver = record {
    State = Dummy.State F;
    is_ready = λ s. s.is_initialized;
    init = Dummy.dummy_init A;
    read = Dummy.dummy_read A P valid;
    deinit = Dummy.dummy_deinit A;
    init_ready = dummy_init_ready;
    init_again = dummy_init_again;
    read_refused = dummy_read_refused;
    read_ready = dummy_read_ready;
    deinit_ready = dummy_deinit_ready;
  }
