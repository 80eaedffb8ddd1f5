-- ===== src/Mcp23017/Ports.antt =====
-- The operations on whole ports of firmware/main/drivers/ic/mcp23017.c, against the shadow
-- registers.
use fortunelabs_mainboard_l.Prelude.{ℕ, arith}
use fortunelabs_mainboard_l.Platform.{Pointer, Platform}
use fortunelabs_mainboard_l.Mcp23017.Device.{
  State, reg_iodira, reg_iodirb, reg_gppua, reg_gppub, reg_olata, reg_olatb, reg_ipola, reg_ipolb,
  set_port_direction, write_port, set_port_pullup, set_port_polarity, by_port,
}
use fortunelabs_mainboard_l.Mcp23017.Latches.{write_reg-acked, register-write_reg}
use fortunelabs_mainboard_l.Mcp23017.Sync.{IsSynced}

module _ (P : Platform) where
  set_port_direction-IsSynced :
      (p : Pointer) (port v : ℕ) (s : State)
      → IsSynced P s
      → IsSynced P (set_port_direction P p port v s).1
  unfolding set_port_direction
  set_port_direction-IsSynced p port v s h =
      let reg = by_port port reg_iodira reg_iodirb in
      ground (
        arith,
        h,
        write_reg-acked P reg v s,
        register-write_reg P reg_iodira reg v s,
        register-write_reg P reg_iodirb reg v s,
        register-write_reg P reg_olata reg v s,
        register-write_reg P reg_olatb reg v s,
      )

  write_port-IsSynced :
      (p : Pointer) (port v : ℕ) (s : State) → IsSynced P s → IsSynced P (write_port P p port v s).1
  unfolding write_port
  write_port-IsSynced p port v s h =
      let reg = by_port port reg_olata reg_olatb in
      ground (
        arith,
        h,
        write_reg-acked P reg v s,
        register-write_reg P reg_iodira reg v s,
        register-write_reg P reg_iodirb reg v s,
        register-write_reg P reg_olata reg v s,
        register-write_reg P reg_olatb reg v s,
      )

  set_port_pullup-IsSynced :
      (p : Pointer) (port v : ℕ) (s : State)
      → IsSynced P s
      → IsSynced P (set_port_pullup P p port v s).1
  unfolding set_port_pullup
  set_port_pullup-IsSynced p port v s h =
      let reg = by_port port reg_gppua reg_gppub in
      ground (
        arith,
        h,
        write_reg-acked P reg v s,
        register-write_reg P reg_iodira reg v s,
        register-write_reg P reg_iodirb reg v s,
        register-write_reg P reg_olata reg v s,
        register-write_reg P reg_olatb reg v s,
      )

  set_port_polarity-IsSynced :
      (p : Pointer) (port v : ℕ) (s : State)
      → IsSynced P s
      → IsSynced P (set_port_polarity P p port v s).1
  unfolding set_port_polarity
  set_port_polarity-IsSynced p port v s h =
      let reg = by_port port reg_ipola reg_ipolb in
      ground (
        arith,
        h,
        write_reg-acked P reg v s,
        register-write_reg P reg_iodira reg v s,
        register-write_reg P reg_iodirb reg v s,
        register-write_reg P reg_olata reg v s,
        register-write_reg P reg_olatb reg v s,
      )

  -- The four operations that write a port keep the shadow registers equal to the chip's, whatever
  -- the arguments and whether the write succeeds or not.
  pub ports-IsSynced :
      (p : Pointer) (port v : ℕ) (s : State)
      → IsSynced P s
      → IsSynced P (set_port_direction P p port v s).1
        × IsSynced P (write_port P p port v s).1
        × IsSynced P (set_port_pullup P p port v s).1
        × IsSynced P (set_port_polarity P p port v s).1
  ports-IsSynced p port v s h = (
    set_port_direction-IsSynced p port v s h,
    write_port-IsSynced p port v s h,
    set_port_pullup-IsSynced p port v s h,
    set_port_polarity-IsSynced p port v s h,
  )
