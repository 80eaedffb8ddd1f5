-- ===== src/Bus/Quiet.antt =====
-- The steps of a recovery (`_i2c_bus_recover_locked` of firmware/main/bus/i2c_bus.c).
use fortunelabs_mainboard_l.Prelude.{
  ℕ, zero, suc, ◌+◌, ◌≡◌, refl, List, [], ◌∷◌, arith, ◌==◌, Bool-cases, inl, inr,
}
use fortunelabs_mainboard_l.Platform.{
  Call, Trace, Platform, i2c, gpio, GpioCall, delay_us, new_master_bus, del_master_bus,
  bus_add_device, get_level, Err-cases,
}
use fortunelabs_mainboard_l.Bus.State.{Entry, Bus, Sys, recovery_clocks, pulse}
use fortunelabs_mainboard_l.Bus.Recovery.{
  teardown, stop_condition, clock_out, readd, reattach, rebuild, recover_locked,
}
use fortunelabs_mainboard_l.Bus.Traces.{attempts, acked, held, Guarded}

-- The second trace is the first one with more calls, none of which uses the bus or the mutex.
pub data Quiet (t : Trace) : Trace → Type 0 where
  here : Quiet t t
  line : {u : Trace} (c : GpioCall) → Quiet t u → Quiet t (gpio c ∷ u)
  wait : {u : Trace} (n : ℕ) → Quiet t u → Quiet t (delay_us n ∷ u)
  opened : {u : Trace} (p a c : ℕ) → Quiet t u → Quiet t (i2c (new_master_bus p a c) ∷ u)
  closed : {u : Trace} (h : ℕ) → Quiet t u → Quiet t (i2c (del_master_bus h) ∷ u)
  added : {u : Trace} (h a z : ℕ) → Quiet t u → Quiet t (i2c (bus_add_device h a z) ∷ u)

pub Quiet-trans : {t u v : Trace} → Quiet t u → Quiet u v → Quiet t v
Quiet-trans q here = q
Quiet-trans q (line c r) = line c (Quiet-trans q r)
Quiet-trans q (wait n r) = wait n (Quiet-trans q r)
Quiet-trans q (opened p a c r) = opened p a c (Quiet-trans q r)
Quiet-trans q (closed h r) = closed h (Quiet-trans q r)
Quiet-trans q (added h a z r) = added h a z (Quiet-trans q r)

pub Quiet-attempts : {t u : Trace} → Quiet t u → attempts u ≡ attempts t
Quiet-attempts here = refl
Quiet-attempts (line c r) = omega (arith, Quiet-attempts r)
Quiet-attempts (wait n r) = omega (arith, Quiet-attempts r)
Quiet-attempts (opened p a c r) = omega (arith, Quiet-attempts r)
Quiet-attempts (closed h r) = omega (arith, Quiet-attempts r)
Quiet-attempts (added h a z r) = omega (arith, Quiet-attempts r)

module _ (P : Platform) where
  pub Quiet-acked : {t u : Trace} → Quiet t u → acked P u ≡ acked P t
  Quiet-acked here = refl
  Quiet-acked (line c r) = Quiet-acked r
  Quiet-acked (wait n r) = Quiet-acked r
  Quiet-acked (opened p a c r) = Quiet-acked r
  Quiet-acked (closed h r) = Quiet-acked r
  Quiet-acked (added h a z r) = Quiet-acked r

  pub Quiet-held : (m : ℕ) {t u : Trace} → Quiet t u → held P m u ≡ held P m t
  Quiet-held m here = refl
  Quiet-held m (line c r) = Quiet-held m r
  Quiet-held m (wait n r) = Quiet-held m r
  Quiet-held m (opened p a c r) = Quiet-held m r
  Quiet-held m (closed h r) = Quiet-held m r
  Quiet-held m (added h a z r) = Quiet-held m r

  pub Quiet-Guarded : (m : ℕ) {t u : Trace} → Quiet t u → Guarded P m t → Guarded P m u
  Quiet-Guarded m here g = g
  Quiet-Guarded m (line c r) g = (λ e. cc, Quiet-Guarded m r g)
  Quiet-Guarded m (wait n r) g = (λ e. cc, Quiet-Guarded m r g)
  Quiet-Guarded m (opened p a c r) g = (λ e. cc, Quiet-Guarded m r g)
  Quiet-Guarded m (closed h r) g = (λ e. cc, Quiet-Guarded m r g)
  Quiet-Guarded m (added h a z r) g = (λ e. cc, Quiet-Guarded m r g)

-- What recovery leaves alone.
pub record SameSetup (b b' : Bus) : Type 0 where
  pub lock : b'.lock ≡ b.lock
  pub device_count : b'.device_count ≡ b.device_count
  pub error_count : b'.error_count ≡ b.error_count
  pub sda_pin : b'.sda_pin ≡ b.sda_pin
  pub scl_pin : b'.scl_pin ≡ b.scl_pin
  pub port : b'.port ≡ b.port

ruleset quiet_steps = (here, line, wait, opened, closed, added)

teardown-Quiet : (s : Sys) → Quiet s.trace (teardown s).trace
unfolding teardown
teardown-Quiet s = elim (Bool-cases (s.bus.bus_handle == 0)) [
  | inl e ↦ rw e (search quiet_steps depth 9)
  | inr e ↦ rw e (search quiet_steps depth 9)
]

teardown-SameSetup : (s : Sys) → SameSetup s.bus (teardown s).bus
unfolding teardown
teardown-SameSetup s = ground arith

stop_condition-Quiet : (b : Bus) (t : Trace) → Quiet t (stop_condition b t)
stop_condition-Quiet b t = search quiet_steps depth 9

module _ (P : Platform) where
  clock_out-Quiet : (sda scl n p : ℕ) (t : Trace) → Quiet t (clock_out P sda scl n p t).1
  unfolding clock_out
  clock_out-Quiet sda scl zero p t = line _ here
  clock_out-Quiet sda scl (suc n) p t = elim (Bool-cases (P.value t (gpio (get_level sda)) == 0)) [
    | inl e ↦ rw e (
        Quiet-trans (search quiet_steps depth 9)
          (clock_out-Quiet sda scl n (p + 1) (pulse scl (gpio (get_level sda) ∷ t))))
    | inr e ↦ rw e (line _ here)
  ]

  readd-Quiet : (h n : ℕ) (es : List Entry) (t : Trace) → Quiet t (readd P h n es t).2
  unfolding readd
  readd-Quiet h zero es t = here
  readd-Quiet h (suc n) [] t = here
  readd-Quiet h (suc n) (e ∷ es) t =
      elim (Err-cases (P.status t (i2c (bus_add_device h e.addr 0)))) [
        | inl p ↦
            rw (p, readd)
              (Quiet-trans (added _ _ _ here)
                (readd-Quiet h n es (i2c (bus_add_device h e.addr 0) ∷ t)))
        | inr (c, p) ↦ rw (p, readd) (added _ _ _ here)
      ]

  -- What a step of the recovery guarantees.
  pub record IsStep (s s' : Sys) : Type 0 where
    pub quiet : Quiet s.trace s'.trace
    pub same : SameSetup s.bus s'.bus

  reattach-IsStep : (s : Sys) → IsStep s (reattach P s).1
  unfolding reattach
  reattach-IsStep s =
      let q = readd-Quiet s.bus.bus_handle s.bus.device_count s.bus.devices s.trace in
      elim (Err-cases (readd P s.bus.bus_handle s.bus.device_count s.bus.devices s.trace).0) [
        | inl e ↦ rw (e, reattach) (record { quiet = q; same = ground arith })
        | inr (c, e) ↦ rw (e, reattach) (record { quiet = closed _ q; same = ground arith })
      ]

  rebuild-IsStep : (s : Sys) → IsStep s (rebuild P s).1
  unfolding rebuild
  rebuild-IsStep s =
      let b = s.bus in
      let open_bus = i2c (new_master_bus b.port b.sda_pin b.scl_pin) in
      let s' : Sys = record {
        bus = record b { bus_handle = P.value s.trace open_bus };
        trace = open_bus ∷ s.trace;
      } in
      let step = reattach-IsStep s' in
      elim (Err-cases (P.status s.trace open_bus)) [
        | inl e ↦
            rw (e, rebuild)
              (record {
                quiet = Quiet-trans (opened _ _ _ here) step.quiet;
                same = ground (arith, step.same);
              })
        | inr (c, e) ↦ rw (e, rebuild) (record { quiet = opened _ _ _ here; same = ground arith })
      ]

  pub recover_locked-IsStep : (s : Sys) → IsStep s (recover_locked P s).1
  unfolding recover_locked
  recover_locked-IsStep s =
      let b = (teardown s).bus in
      let t = (clock_out P b.sda_pin b.scl_pin recovery_clocks 0 (teardown s).trace).1 in
      let last : Call = gpio (get_level b.sda_pin) in
      let s' : Sys = record { bus = b; trace = stop_condition b (last ∷ t) } in
      let q =
        Quiet-trans (teardown-Quiet s)
          (clock_out-Quiet b.sda_pin b.scl_pin recovery_clocks 0 (teardown s).trace) in
      let step = rebuild-IsStep s' in
      let same = teardown-SameSetup s in
      elim (Bool-cases (P.value t last == 0)) [
        | inl e ↦ rw e (record { quiet = line _ q; same = same })
        | inr e ↦ rw e (record {
          quiet =
              Quiet-trans (line _ q) (Quiet-trans (stop_condition-Quiet b (last ∷ t)) step.quiet);
          same = ground (arith, same, step.same);
        })
      ]
