-- ===== src/Mcp23017/Sync.antt =====
-- The shadow registers of the driver and the registers of the chip.
use mathlib.Core.Path.{ap₂}
use fortunelabs_mainboard_l.Prelude.{
  ℕ, ◌≡◌, refl, true, false, List, [], ◌∷◌, some, arith, inl, inr, ◌∙◌,
}
use fortunelabs_mainboard_l.Platform.{Err, ok, is_ok, Platform, Transfer, transmit, Err-cases}
use fortunelabs_mainboard_l.Bus.Traces.{acked}
use fortunelabs_mainboard_l.Mcp23017.Device.{
  Config, Device, State, put_dev, write_reg, init_registers, init_shadow, ◌>>=◌, reg_iodira,
  reg_iodirb, reg_gppua, reg_gppub, reg_olata, reg_olatb, reg_iocon, reg_iocon_bank1, default_olat,
}
use fortunelabs_mainboard_l.Mcp23017.Latches.{register, write_reg-acked}

-- The register writes of the initialization, in order.
abbrev pub init_writes : Config → List (ℕ × ℕ)
init_writes cfg =
    (reg_iocon_bank1, 0x00)
    ∷ (reg_iocon, 0x00)
    ∷ (reg_iodira, cfg.dir_a)
    ∷ (reg_iodirb, cfg.dir_b)
    ∷ (reg_gppua, cfg.pullup_a)
    ∷ (reg_gppub, cfg.pullup_b)
    ∷ (reg_olata, default_olat)
    ∷ (reg_olatb, default_olat)
    ∷ []

-- Those writes as transfers to a device, added to the acknowledged ones.
abbrev pub transmit_all : ℕ → List (ℕ × ℕ) → List Transfer → List Transfer
transmit_all h [] xs = xs
transmit_all h ((reg, v) ∷ ws) xs = transmit_all h ws (transmit h (reg ∷ v ∷ []) ∷ xs)

module _ (P : Platform) where
  -- Register writes up to the first that fails, then a change of the device.
  unfoldable pub write_then : List (ℕ × ℕ) → (Device → Device) → State → Err × State
  write_then [] f s = (ok, put_dev (f s.dev) s)
  write_then ((reg, v) ∷ ws) f s = write_reg P reg v s >>= write_then ws f

  write_then-step :
      (reg v : ℕ) (ws : List (ℕ × ℕ)) (f : Device → Device) (s : State)
      → (write_reg P reg v s).0 ≡ ok
      → write_then ((reg, v) ∷ ws) f s ≡ write_then ws f (write_reg P reg v s).1
  unfolding write_then
  write_then-step reg v ws f s p = rw (p, ◌>>=◌)

  write_reg-ok :
      (reg v : ℕ) (s : State)
      → (write_reg P reg v s).0 ≡ ok
      → acked P (write_reg P reg v s).1.sys.trace
        ≡ transmit s.dev.dev_handle (reg ∷ v ∷ []) ∷ acked P s.sys.trace
  write_reg-ok reg v s p = ground (arith, p, write_reg-acked P reg v s)

  pub write_then-ok :
      (ws : List (ℕ × ℕ)) (f : Device → Device) (s : State)
      → (write_then ws f s).0 ≡ ok
      → ((write_then ws f s).1.dev ≡ f s.dev)
        × (acked P (write_then ws f s).1.sys.trace
            ≡ transmit_all s.dev.dev_handle ws (acked P s.sys.trace))
  unfolding write_then
  write_then-ok [] f s e = (refl, refl)
  write_then-ok ((reg, v) ∷ ws) f s e = elim (Err-cases (write_reg P reg v s).0) [
    | inl p ↦
        let step = write_then-step reg v ws f s p in
        let s1 = (write_reg P reg v s).1 in
        let (dev, sent) = write_then-ok ws f s1 (rw step at e) in
        let same = (write_reg-acked P reg v s).0 in
        rw step (
          cc,
          sent
              ∙ ap₂ (λ d xs. transmit_all (Device.dev_handle d) ws xs) same
                  (write_reg-ok reg v s p),
        )
    | inr (c, p) ↦ absurd (cc (rw (p, ◌>>=◌) at e))
  ]

  pub write_then-err :
      (ws : List (ℕ × ℕ)) (f : Device → Device) (s : State)
      → is_ok (write_then ws f s).0 ≡ false
      → (write_then ws f s).1.dev ≡ s.dev
  unfolding write_then
  write_then-err [] f s e = cc
  write_then-err ((reg, v) ∷ ws) f s e = elim (Err-cases (write_reg P reg v s).0) [
    | inl p ↦
        let step = write_then-step reg v ws f s p in
        rw step (
          write_then-err ws f (write_reg P reg v s).1 (rw step at e)
          ∙ (write_reg-acked P reg v s).0)
    | inr (c, p) ↦ rw (p, ◌>>=◌) ((write_reg-acked P reg v s).0)
  ]

  pub init_registers-eq-write_then :
      (cfg : Config) (s : State)
      → init_registers P cfg s ≡ write_then (init_writes cfg) (init_shadow cfg) s
  unfolding init_registers write_then
  init_registers-eq-write_then cfg s = refl

  -- Each shadow register of an initialized device holds what the chip last acknowledged.
  pub record IsSynced (s : State) : Type 0 where
    pub dir_a : s.dev.is_initialized ≡ true → register P reg_iodira s ≡ some (s.dev.dir_a)
    pub dir_b : s.dev.is_initialized ≡ true → register P reg_iodirb s ≡ some (s.dev.dir_b)
    pub olat_a : s.dev.is_initialized ≡ true → register P reg_olata s ≡ some (s.dev.olat_a)
    pub olat_b : s.dev.is_initialized ≡ true → register P reg_olatb s ≡ some (s.dev.olat_b)
