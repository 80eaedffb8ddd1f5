-- ===== src/SensorDummy.antt =====
-- firmware/main/drivers/sensor/sensor_dummy.c: the simulated potentiometer. The type of `float`, its
-- sum, difference and comparison, and the constants of the file are parameters.
use fortunelabs_mainboard_l.Prelude.{
  ℕ, ◌/◌, ◌%◌, ◌^◌, ◌≡◌, refl, Bool, true, false, not, ◌||◌, ◌&&◌, zero, suc, List, [], ◌∷◌, Option,
  none, some, if◌then◌else◌, arith,
}
use fortunelabs_mainboard_l.Platform.{
  Err, ok, err, fail, Pointer, valid, is_null, Platform, Trace, timer_us,
}

-- The floating-point operations of the file: `a + b`, `a - b`, `a <= b`, and `SIM_VOLTAGE_MIN`,
-- `SIM_VOLTAGE_MAX`, `SIM_STEP_SIZE`.
pub record FloatApi (F : Type 0) : Type 0 where
  pub add : F → F → F
  pub sub : F → F → F
  pub le : F → F → Bool
  pub voltage_min : F
  pub voltage_max : F
  pub step_size : F

-- What a range of values without a NaN gives: the constants are in order, of two values one is at
-- most the other, and a step up or down from a value does not go below or above it.
pub record FloatLaws {F : Type 0} (A : FloatApi F) : Type 0 where
  pub range : A.le A.voltage_min A.voltage_max ≡ true
  pub le_refl : (x : F) → A.le x x ≡ true
  pub le_total : (x y : F) → A.le x y ≡ false → A.le y x ≡ true
  pub le_trans : (x y z : F) → A.le x y ≡ true → A.le y z ≡ true → A.le x z ≡ true
  pub step_up : (x : F) → A.le x (A.add x A.step_size) ≡ true
  pub step_down : (x : F) → A.le (A.sub x A.step_size) x ≡ true

-- `sensor_reading_t`
pub record Reading (F : Type 0) : Type 0 where
  pub channel : ℕ
  pub value : F
  pub timestamp_ms : ℕ

-- The static variables of the file, and the calls made so far.
pub record State (F : Type 0) : Type 0 where
  pub current_voltage : F
  pub direction_up : Bool
  pub is_initialized : Bool
  pub trace : Trace

module _ {F : Type 0} (A : FloatApi F) where
  open A use {add, sub, le, voltage_min, voltage_max, step_size}

  -- `dummy_init`; the configuration is not read.
  unfoldable pub dummy_init : State F → Err × State F
  dummy_init s = if s.is_initialized then (ok, s) else (
    ok,
    record s { current_voltage = voltage_min; direction_up = true; is_initialized = true },
  )

  -- The sweep of `dummy_read`.
  unfoldable pub sweep : State F → State F
  sweep s =
      let up = add s.current_voltage step_size in
      let down = sub s.current_voltage step_size in
      if s.direction_up
      then (if le voltage_max up
          then record s { current_voltage = voltage_max; direction_up = false }
          else record s { current_voltage = up })
      else (if le down voltage_min
          then record s { current_voltage = voltage_min; direction_up = true }
          else record s { current_voltage = down })

  -- `dummy_read`: the reading stored through the out-pointer, if one is.
  unfoldable pub dummy_read : Platform → Pointer → State F → Err × Option (Reading F) × State F
  dummy_read P out s =
      if not s.is_initialized || is_null out
      then (err fail, none, s)
      else (let s1 = sweep s in
          (
            ok,
            some (record {
              channel = 0;
              value = s1.current_voltage;
              timestamp_ms = P.value s1.trace timer_us / 1000 % 2 ^ 32;
            }),
            record s1 { trace = timer_us ∷ s1.trace },
          ))

  -- `dummy_deinit`
  unfoldable pub dummy_deinit : State F → State F
  dummy_deinit s = record s { is_initialized = false }

  -- A voltage within the range of the simulation.
  abbrev pub in_range : F → Bool
  in_range v = le voltage_min v && le v voltage_max

  sweep-in_range :
      FloatLaws A
      → (s : State F) → in_range s.current_voltage ≡ true
      → in_range (sweep s).current_voltage ≡ true
  unfolding sweep
  sweep-in_range laws s h =
      let x = s.current_voltage in
      let up = add x step_size in
      let down = sub x step_size in
      ground (
        arith,
        h,
        laws.range,
        laws.le_refl voltage_min,
        laws.le_refl voltage_max,
        laws.step_up x,
        laws.step_down x,
        laws.le_total voltage_max up,
        laws.le_total down voltage_min,
        laws.le_trans voltage_min x up,
        laws.le_trans down x voltage_max,
      )

  -- The readings of `n` calls of `dummy_read`, the newest first, after others.
  unfoldable pub readings : Platform → ℕ → State F → List F → List F
  readings P zero s vs = vs
  readings P (suc n) s vs =
      let (r, out, s1) = dummy_read P valid s in
      readings P n s1 (elim out [ none ↦ vs | some reading ↦ reading.value ∷ vs ])

  abbrev pub all_in_range : List F → Bool
  all_in_range [] = true
  all_in_range (v ∷ vs) = in_range v && all_in_range vs

  -- A read of a started driver gives the voltage after the sweep.
  dummy_read-ready :
      (P : Platform) (n : ℕ) (s : State F) (vs : List F)
      → s.is_initialized ≡ true
      → let s1 = (dummy_read P valid s).2 in
        (s1.current_voltage ≡ (sweep s).current_voltage)
        × (s1.is_initialized ≡ true)
        × (readings P (suc n) s vs ≡ readings P n s1 ((sweep s).current_voltage ∷ vs))
  unfolding dummy_read sweep readings
  dummy_read-ready P n s vs i = ground (arith, i)

  readings-in_range :
      (P : Platform) (laws : FloatLaws A) (n : ℕ) (s : State F) (vs : List F)
      → s.is_initialized ≡ true
      → in_range s.current_voltage ≡ true
      → all_in_range vs ≡ true
      → all_in_range (readings P n s vs) ≡ true
  unfolding readings
  readings-in_range P laws zero s vs i h a = a
  readings-in_range P laws (suc n) s vs i h a =
      let s1 : State F = (dummy_read P valid s).2 in
      let (v, j, next) = dummy_read-ready P n s vs i in
      let swept = sweep-in_range laws s h in
      rw next (
        readings-in_range P laws n s1 ((sweep s).current_voltage ∷ vs) j (rw v swept)
          (ground (arith, swept, a)))

  -- Every reading of the simulated potentiometer after its first start is within the range of the
  -- simulation, however often it is read, if the floating-point operations keep the order.
  pub started-in_range :
      (P : Platform) (laws : FloatLaws A) (n : ℕ) (s : State F)
      → s.is_initialized ≡ false
      → all_in_range (readings P n (dummy_init s).1 []) ≡ true
  unfolding dummy_init
  started-in_range P laws n s i =
      let started = (dummy_init s).1 in
      readings-in_range P laws n started [] (ground (arith, i))
        (ground (arith, i, laws.range, laws.le_refl voltage_min)) refl
