-- ===== src/Bus/Recovered.antt =====
-- The result of `_i2c_bus_recover_locked` of firmware/main/bus/i2c_bus.c.
use fortunelabs_mainboard_l.Prelude.{
  ℕ, zero, suc, ◌+◌, ◌≤◌, ◌≡◌, ◌≢◌, ◌⊎◌, refl, ap, false, List, [], ◌∷◌, if◌then◌else◌, arith,
  Bool-cases, inl, inr, ◌==◌, ◌∙◌,
}
use fortunelabs_mainboard_l.Platform.{
  Err, ok, is_ok, Call, Trace, Platform, I2cCall, i2c, gpio, get_level, new_master_bus,
  bus_add_device, Err-cases,
}
use fortunelabs_mainboard_l.Bus.State.{Entry, Sys, recovery_clocks, pulse}
use fortunelabs_mainboard_l.Bus.Recovery.{
  teardown, stop_condition, clock_out, readd, reattach, rebuild, recover_locked,
}

-- The devices that the driver attached: the bus handle and the address, the newest first.
abbrev pub attached_i2c : Platform → I2cCall → Trace → List (ℕ × ℕ) → List (ℕ × ℕ)
attached_i2c P (bus_add_device h a hz) t xs =
    if is_ok (P.status t (i2c (bus_add_device h a hz))) then (h, a) ∷ xs else xs
attached_i2c P _ t xs = xs

abbrev pub attached_call : Platform → Call → Trace → List (ℕ × ℕ) → List (ℕ × ℕ)
attached_call P (i2c c) t xs = attached_i2c P c t xs
attached_call P _ t xs = xs

abbrev pub attached : Platform → Trace → List (ℕ × ℕ)
attached P [] = []
attached P (c ∷ t) = attached_call P c t (attached P t)

-- A bus that was opened: its handle, its port, and its two pins, SDA first.
abbrev pub Opening : Type 0
Opening = ℕ × ℕ × ℕ × ℕ

-- The buses that the driver opened, the newest first.
abbrev pub opened_i2c : Platform → I2cCall → Trace → List Opening → List Opening
opened_i2c P (new_master_bus p a c) t xs =
    let call = i2c (new_master_bus p a c) in
    if is_ok (P.status t call) then (P.value t call, p, a, c) ∷ xs else xs
opened_i2c P _ t xs = xs

abbrev pub opened_call : Platform → Call → Trace → List Opening → List Opening
opened_call P (i2c c) t xs = opened_i2c P c t xs
opened_call P _ t xs = xs

abbrev pub opened : Platform → Trace → List Opening
opened P [] = []
opened P (c ∷ t) = opened_call P c t (opened P t)

-- The first `n` entries of a registry, attached to one bus handle in order.
abbrev pub attach_all : ℕ → ℕ → List Entry → List (ℕ × ℕ) → List (ℕ × ℕ)
attach_all h zero es xs = xs
attach_all h (suc n) [] xs = xs
attach_all h (suc n) (e ∷ es) xs = attach_all h n es ((h, e.addr) ∷ xs)

abbrev pub addresses : List Entry → List ℕ
addresses [] = []
addresses (e ∷ es) = e.addr ∷ addresses es

module _ (P : Platform) where
  -- The last call read SDA, and found it released.
  abbrev pub IsReleased : ℕ → Trace → Type 0
  IsReleased sda t' =
      (u : Trace) × (t' ≡ gpio (get_level sda) ∷ u) × (P.value u (gpio (get_level sda)) ≢ 0)

  -- The recovery makes at most its budget of pulses: it makes all of them, or it stops because its
  -- last reading found SDA released.
  pub clock_out_lem :
      (sda scl n k : ℕ) (t : Trace)
      → let (pulses, t') = clock_out P sda scl n k t in
        (pulses ≤ k + n) × ((pulses ≡ k + n) ⊎ IsReleased sda t')
  unfolding clock_out
  clock_out_lem sda scl zero k t = (omega arith, inl (omega arith))
  clock_out_lem sda scl (suc n) k t =
      let look : Call = gpio (get_level sda) in
      let (most, fewer) = clock_out_lem sda scl n (k + 1) (pulse scl (look ∷ t)) in
      elim (Bool-cases (P.value t look == 0)) [
        | inl e ↦ rw e (
          omega (arith, most),
          elim fewer [ inl full ↦ inl (omega (arith, full)) | inr seen ↦ inr seen ],
        )
        | inr e ↦ rw e (omega arith, inr (t, refl, ground arith))
      ]

  clock_out-attached :
      (sda scl n k : ℕ) (t : Trace)
      → (attached P (clock_out P sda scl n k t).1 ≡ attached P t)
        × (opened P (clock_out P sda scl n k t).1 ≡ opened P t)
  unfolding clock_out
  clock_out-attached sda scl zero k t = (refl, refl)
  clock_out-attached sda scl (suc n) k t =
      let look : Call = gpio (get_level sda) in
      elim (Bool-cases (P.value t look == 0)) [
        | inl e ↦ rw e (clock_out-attached sda scl n (k + 1) (pulse scl (look ∷ t)))
        | inr e ↦ rw e (refl, refl)
      ]

  readd-attached :
      (h n : ℕ) (es : List Entry) (t : Trace)
      → (readd P h n es t).0 ≡ ok
      → (attached P (readd P h n es t).2 ≡ attach_all h n es (attached P t))
        × (opened P (readd P h n es t).2 ≡ opened P t)
  unfolding readd
  readd-attached h zero es t e = (refl, refl)
  readd-attached h (suc n) [] t e = (refl, refl)
  readd-attached h (suc n) (e ∷ es) t r =
      let add = i2c (bus_add_device h e.addr 0) in
      elim (Err-cases (P.status t add)) [
        | inl p ↦
            let (more, same) = readd-attached h n es (add ∷ t) (rw (p, readd) at r) in
            rw (p, readd)
              (
                more
                    ∙ ap (attach_all h n es) (
                        ap
                          (λ (r : Err).
                            if is_ok r then (h, e.addr) ∷ attached P t else attached P t)
                          p),
                same,
              )
        | inr (c, p) ↦ absurd (cc (rw (p, readd) at r))
      ]

  readd-addresses :
      (h n : ℕ) (es : List Entry) (t : Trace) → addresses (readd P h n es t).1 ≡ addresses es
  unfolding readd
  readd-addresses h zero es t = refl
  readd-addresses h (suc n) [] t = refl
  readd-addresses h (suc n) (e ∷ es) t =
      let add = i2c (bus_add_device h e.addr 0) in
      elim (Err-cases (P.status t add)) [
        | inl p ↦ rw (p, readd) (ap (λ xs. e.addr ∷ xs) (readd-addresses h n es (add ∷ t)))
        | inr (c, p) ↦ rw (p, readd)
      ]

  -- What the recovery gives, for the error that it returns.
  pub record IsRecovered (s : Sys) (r : Err) (s' : Sys) : Type 0 where
    pub usable : s'.bus.initialized ≡ is_ok r
    pub registry : addresses s'.bus.devices ≡ addresses s.bus.devices
    pub reattached :
        (is_ok r ≡ false)
        ⊎ ((attached P s'.trace
              ≡ attach_all s'.bus.bus_handle s.bus.device_count s.bus.devices (attached P s.trace))
            × (opened P s'.trace
                ≡ (s'.bus.bus_handle, s.bus.port, s.bus.sda_pin, s.bus.scl_pin) ∷ opened P s.trace))

  -- What the devices being added again gives, on a bus that is open.
  record IsReattached (s : Sys) (r : Err) (s' : Sys) : Type 0 where
    usable : s'.bus.initialized ≡ is_ok r
    registry : addresses s'.bus.devices ≡ addresses s.bus.devices
    reattached :
        (is_ok r ≡ false)
        ⊎ ((attached P s'.trace
              ≡ attach_all s.bus.bus_handle s.bus.device_count s.bus.devices (attached P s.trace))
            × (opened P s'.trace ≡ opened P s.trace)
            × (s'.bus.bus_handle ≡ s.bus.bus_handle))

  reattach-IsReattached :
      (s : Sys) → s.bus.initialized ≡ false → let (r, s') = reattach P s in IsReattached s r s'
  unfolding reattach
  reattach-IsReattached s h =
      let b = s.bus in
      let same = readd-addresses b.bus_handle b.device_count b.devices s.trace in
      elim (Err-cases (readd P b.bus_handle b.device_count b.devices s.trace).0) [
        | inl e ↦
            let (more, kept) = readd-attached b.bus_handle b.device_count b.devices s.trace e in
            rw (e, reattach)
              (record { usable = refl; registry = same; reattached = inr (more, kept, refl) })
        | inr (c, e) ↦
            rw (e, reattach) (record { usable = h; registry = same; reattached = inl refl })
      ]

  rebuild-IsRecovered :
      (s : Sys) → s.bus.initialized ≡ false → let (r, s') = rebuild P s in IsRecovered s r s'
  unfolding rebuild
  rebuild-IsRecovered s h =
      let b = s.bus in
      let open_bus = i2c (new_master_bus b.port b.sda_pin b.scl_pin) in
      let s' : Sys = record {
        bus = record b { bus_handle = P.value s.trace open_bus };
        trace = open_bus ∷ s.trace;
      } in
      let step = reattach-IsReattached s' h in
      elim (Err-cases (P.status s.trace open_bus)) [
        | inl e ↦
            rw (e, rebuild)
              (record {
                usable = step.usable;
                registry = step.registry;
                reattached = elim step.reattached [
                  | inl q ↦ inl q
                  | inr (more, kept, same) ↦ inr (
                    rw same more,
                    rw same (
                        kept
                        ∙ ap
                            (λ (r : Err).
                              if is_ok r
                              then (P.value s.trace open_bus, b.port, b.sda_pin, b.scl_pin)
                                ∷ opened P s.trace
                              else opened P s.trace)
                            e),
                  )
                ];
              })
        | inr (c, e) ↦
            rw (e, rebuild) (record { usable = h; registry = refl; reattached = inl refl })
      ]

  teardown-attached :
      (s : Sys)
      → (attached P (teardown s).trace ≡ attached P s.trace)
        × (opened P (teardown s).trace ≡ opened P s.trace)
  unfolding teardown
  teardown-attached s = elim (Bool-cases (s.bus.bus_handle == 0)) [
    | inl e ↦ rw e (refl, refl)
    | inr e ↦ rw e (refl, refl)
  ]

  -- After the recovery the bus is usable exactly if the recovery returned ESP_OK. The registry
  -- keeps its addresses, and on ESP_OK one new bus was opened, on the port and pins of the old one,
  -- whose handle the bus holds, and the driver attached exactly the registered devices to it, in order.
  pub recover_locked-IsRecovered :
      (s : Sys) → let (r, s') = recover_locked P s in IsRecovered s r s'
  unfolding recover_locked teardown
  recover_locked-IsRecovered s =
      let b = (teardown s).bus in
      let out = clock_out P b.sda_pin b.scl_pin recovery_clocks 0 (teardown s).trace in
      let last : Call = gpio (get_level b.sda_pin) in
      let s' : Sys = record { bus = b; trace = stop_condition b (last ∷ out.1) } in
      let step = rebuild-IsRecovered s' refl in
      let clocked = clock_out-attached b.sda_pin b.scl_pin recovery_clocks 0 (teardown s).trace in
      let torn = teardown-attached s in
      let before : attached P out.1 ≡ attached P s.trace = clocked.0 ∙ torn.0 in
      let before_opened : opened P out.1 ≡ opened P s.trace = clocked.1 ∙ torn.1 in
      elim (Bool-cases (P.value out.1 last == 0)) [
        | inl e ↦ rw e (record { usable = refl; registry = refl; reattached = inl refl })
        | inr e ↦ rw e (record {
          usable = step.usable;
          registry = step.registry;
          reattached = elim step.reattached [
            | inl q ↦ inl q
            | inr q ↦ inr (rw (← before) (q.0), rw (← before_opened) (q.1))
          ];
        })
      ]
