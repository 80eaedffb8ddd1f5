-- ===== src/Mcp23017/Latches.antt =====
-- What the chip holds: the value last acknowledged for a register, read off the acknowledged
-- transfers; and how a register write of the driver changes it.
use fortunelabs_mainboard_l.Prelude.{
  ℕ, ◌≡◌, refl, ◌&&◌, List, [], ◌∷◌, Option, none, some, if◌then◌else◌, ◌==◌, arith,
}
use fortunelabs_mainboard_l.Platform.{
  is_ok, Platform, Transfer, transmit, receive, transmit_receive,
}
use fortunelabs_mainboard_l.Bus.Transfers.{write}
use fortunelabs_mainboard_l.Bus.Traces.{acked}
use fortunelabs_mainboard_l.Bus.Delivery.{transfer_with-acked}
use fortunelabs_mainboard_l.Mcp23017.Device.{State, write_reg}

-- The value that a transfer of two bytes to the device writes to the register.
abbrev pub payload : List ℕ → Option (ℕ × ℕ)
payload (reg ∷ v ∷ []) = some (reg, v)
payload (reg ∷ v ∷ w ∷ r) = none
payload (reg ∷ []) = none
payload [] = none

abbrev pub written : Transfer → Option (ℕ × ℕ × ℕ)
written (transmit h bytes) = elim (payload bytes) [ none ↦ none | some (reg, v) ↦ some (h, reg, v) ]
written (receive h n) = none
written (transmit_receive h bytes n) = none

-- The value last written to register `reg` of the device with handle `h`.
unfoldable pub latch : ℕ → ℕ → List Transfer → Option ℕ
latch h reg [] = none
latch h reg (x ∷ xs) =
    let old = latch h reg xs in
    elim (written x) [
      | none ↦ old
      | some (h', reg', v) ↦ if h' == h && reg' == reg then some v else old
    ]

latch-write :
    (h reg reg' v : ℕ) (xs : List Transfer)
    → latch h reg (transmit h (reg' ∷ v ∷ []) ∷ xs)
      ≡ (if reg' == reg then some v else latch h reg xs)
unfolding latch
latch-write h reg reg' v xs = ground arith

module _ (P : Platform) where
  -- The register as the trace of the state shows it, for the device of the state.
  abbrev pub register : ℕ → State → Option ℕ
  register reg s = latch s.dev.dev_handle reg (acked P s.sys.trace)

  pub write_reg-acked :
      (reg v : ℕ) (s : State)
      → let (r, s') = write_reg P reg v s in
        (s'.dev ≡ s.dev)
        × (acked P s'.sys.trace ≡ (
            if is_ok r
            then transmit s.dev.dev_handle (reg ∷ v ∷ []) ∷ acked P s.sys.trace
            else acked P s.sys.trace))
  unfolding write_reg write
  write_reg-acked reg v s = (
    refl,
    (transfer_with-acked P (transmit s.dev.dev_handle (reg ∷ v ∷ [])) s.dev.bus_handle s.sys).0,
  )

  -- A register write changes its register if it returns ESP_OK, and nothing else.
  pub register-write_reg :
      (reg reg' v : ℕ) (s : State)
      → let (r, s') = write_reg P reg' v s in
        register reg s' ≡ (if is_ok r && reg' == reg then some v else register reg s)
  register-write_reg reg reg' v s = ground (
    arith,
    write_reg-acked reg' v s,
    latch-write s.dev.dev_handle reg reg' v (acked P s.sys.trace),
  )
