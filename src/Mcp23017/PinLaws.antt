-- ===== src/Mcp23017/PinLaws.antt =====
-- The operations on single pins of firmware/main/drivers/ic/mcp23017.c, against the bits that they
-- change and the shadow registers.
use fortunelabs_mainboard_l.Prelude.{
  ℕ, ◌≡◌, ◌≤◌, ◌<◌, refl, Bool, true, false, if◌then◌else◌, ◌==◌, arith, not, set_bit, clear_bit,
  toggle_bit, test_bit, test_bit-set_bit, test_bit-clear_bit, test_bit-toggle_bit,
}
use fortunelabs_mainboard_l.Platform.{ok, is_ok, Pointer, valid, Platform}
use fortunelabs_mainboard_l.Mcp23017.Device.{
  State, Device, put_dev, reg_iodira, reg_iodirb, reg_olata, reg_olatb, by_port, is_bad_port,
  put_dir, put_olat,
}
use fortunelabs_mainboard_l.Mcp23017.Pins.{
  pin_max, update_dir, update_olat, set_pin_direction, write_pin, toggle_pin,
}
use fortunelabs_mainboard_l.Mcp23017.Latches.{register, write_reg-acked, register-write_reg}
use fortunelabs_mainboard_l.Mcp23017.Sync.{IsSynced}

-- The output latch and the direction of a port, in the shadow.
abbrev pub olat : ℕ → Device → ℕ
olat port d = by_port port d.olat_a d.olat_b

abbrev pub dir : ℕ → Device → ℕ
dir port d = by_port port d.dir_a d.dir_b

module _ (P : Platform) where
  -- The arguments that a pin operation accepts.
  pub record IsAccepted (port pin : ℕ) (s : State) : Type 0 where
    pub ready : s.dev.is_initialized ≡ true
    pub port_ok : is_bad_port port ≡ false
    pub pin_ok : pin ≤ pin_max

  pub write_pin-update :
      (port pin : ℕ) (v : Bool) (s : State)
      → IsAccepted port pin s
      → write_pin P valid port pin v s
        ≡ update_olat P port
            (if v then set_bit (olat port s.dev) pin else clear_bit (olat port s.dev) pin)
            s
  unfolding write_pin
  write_pin-update port pin v s h = ground (arith, h)

  pub update_olat-dev :
      (port v : ℕ) (s : State) → (update_olat P port v s).1.dev ≡ put_olat port v s.dev
  unfolding update_olat
  update_olat-dev port v s =
      (write_reg-acked P (by_port port reg_olata reg_olatb) v (put_dev (put_olat port v s.dev) s)).0

  pub olat-put_olat : (port v : ℕ) (d : Device) → olat port (put_olat port v d) ≡ v
  olat-put_olat port v d = ground arith

  -- `mcp23017_write_pin` gives the shadow latch the wanted bit at the pin and leaves its other
  -- seven bits alone.
  pub write_pin_bits :
      (port pin k : ℕ) (v : Bool) (s : State)
      → IsAccepted port pin s
      → olat port s.dev < 256
      → k < 8
      → test_bit (olat port (write_pin P valid port pin v s).1.dev) k
        ≡ (if k == pin then v else test_bit (olat port s.dev) k)
  write_pin_bits port pin k true s h b hk =
      let x = olat port s.dev in
      rw
        (
          write_pin-update port pin true s h,
          update_olat-dev port (set_bit x pin) s,
          olat-put_olat port (set_bit x pin) s.dev,
        )
        (test_bit-set_bit x pin b (omega (arith, h)) k hk)
  write_pin_bits port pin k false s h b hk =
      let x = olat port s.dev in
      rw
        (
          write_pin-update port pin false s h,
          update_olat-dev port (clear_bit x pin) s,
          olat-put_olat port (clear_bit x pin) s.dev,
        )
        (test_bit-clear_bit x pin b (omega (arith, h)) k hk)

  -- An acknowledged pin operation keeps the shadow registers equal to the chip's.
  pub update_olat-IsSynced :
      (port v : ℕ) (s : State)
      → IsSynced P s
      → is_bad_port port ≡ false
      → (update_olat P port v s).0 ≡ ok
      → IsSynced P (update_olat P port v s).1
  unfolding update_olat
  update_olat-IsSynced port v s h g e =
      let s1 = put_dev (put_olat port v s.dev) s in
      let reg = by_port port reg_olata reg_olatb in
      ground (
        arith,
        h,
        e,
        write_reg-acked P reg v s1,
        register-write_reg P reg_iodira reg v s1,
        register-write_reg P reg_iodirb reg v s1,
        register-write_reg P reg_olata reg v s1,
        register-write_reg P reg_olatb reg v s1,
      )

  update_dir-IsSynced :
      (port v : ℕ) (s : State)
      → IsSynced P s
      → is_bad_port port ≡ false
      → (update_dir P port v s).0 ≡ ok
      → IsSynced P (update_dir P port v s).1
  unfolding update_dir
  update_dir-IsSynced port v s h g e =
      let s1 = put_dev (put_dir port v s.dev) s in
      let reg = by_port port reg_iodira reg_iodirb in
      ground (
        arith,
        h,
        e,
        write_reg-acked P reg v s1,
        register-write_reg P reg_iodira reg v s1,
        register-write_reg P reg_iodirb reg v s1,
        register-write_reg P reg_olata reg v s1,
        register-write_reg P reg_olatb reg v s1,
      )

  toggle_pin-update :
      (port pin : ℕ) (s : State)
      → IsAccepted port pin s
      → toggle_pin P valid port pin s ≡ update_olat P port (toggle_bit (olat port s.dev) pin) s
  unfolding toggle_pin
  toggle_pin-update port pin s h = ground (arith, h)

  -- `mcp23017_toggle_pin` flips the pin's bit of the shadow latch and leaves its other seven bits
  -- alone; the direction registers and the other port's latch are not touched.
  pub toggle_pin_bits :
      (port pin k : ℕ) (s : State)
      → IsAccepted port pin s
      → olat port s.dev < 256
      → k < 8
      → let d = (toggle_pin P valid port pin s).1.dev in
        (test_bit (olat port d) k
          ≡ (if k == pin then not (test_bit (olat port s.dev) k) else test_bit (olat port s.dev) k))
        × (d ≡ put_olat port (olat port d) s.dev)
  toggle_pin_bits port pin k s h b hk =
      let x = olat port s.dev in
      rw
        (
          toggle_pin-update port pin s h,
          update_olat-dev port (toggle_bit x pin) s,
          olat-put_olat port (toggle_bit x pin) s.dev,
        )
        (test_bit-toggle_bit x pin b (omega (arith, h)) k hk, refl)

  pub set_pin_direction-IsSynced :
      (p : Pointer) (port pin direction : ℕ) (s : State)
      → IsSynced P s
      → (set_pin_direction P p port pin direction s).0 ≡ ok
      → IsSynced P (set_pin_direction P p port pin direction s).1
  unfolding set_pin_direction
  set_pin_direction-IsSynced p port pin direction s h e =
      let old = by_port port s.dev.dir_a s.dev.dir_b in
      ground (
        arith,
        h,
        e,
        update_dir-IsSynced port (set_bit old pin) s h,
        update_dir-IsSynced port (clear_bit old pin) s h,
      )

  pub write_pin-IsSynced :
      (p : Pointer) (port pin : ℕ) (v : Bool) (s : State)
      → IsSynced P s
      → (write_pin P p port pin v s).0 ≡ ok
      → IsSynced P (write_pin P p port pin v s).1
  unfolding write_pin
  write_pin-IsSynced p port pin v s h e =
      let old = by_port port s.dev.olat_a s.dev.olat_b in
      ground (
        arith,
        h,
        e,
        update_olat-IsSynced port (set_bit old pin) s h,
        update_olat-IsSynced port (clear_bit old pin) s h,
      )

  -- A pin write that the bus refuses leaves the chip's latch as it was.
  pub update_olat-failed :
      (port v : ℕ) (s : State)
      → is_ok (update_olat P port v s).0 ≡ false
      → register P (by_port port reg_olata reg_olatb) (update_olat P port v s).1
        ≡ register P (by_port port reg_olata reg_olatb) s
  unfolding update_olat
  update_olat-failed port v s e =
      let s1 = put_dev (put_olat port v s.dev) s in
      let reg = by_port port reg_olata reg_olatb in
      ground (arith, e, register-write_reg P reg reg v s1)
