-- ===== src/Mcp23017/Pins.antt =====
-- firmware/main/drivers/ic/mcp23017.c: the operations on single pins.
use fortunelabs_mainboard_l.Prelude.{
  ℕ, Bool, false, not, ◌||◌, ◌&&◌, if◌then◌else◌, ◌==◌, ltb, set_bit, clear_bit, toggle_bit,
  test_bit,
}
use fortunelabs_mainboard_l.Platform.{
  Err, err, invalid_arg, invalid_state, Pointer, is_null, Platform, is_ok,
}
use fortunelabs_mainboard_l.Mcp23017.Device.{
  State, put_dev, is_ready, is_bad_port, by_port, put_dir, put_olat, write_reg, read_reg,
  reg_iodira, reg_iodirb, reg_olata, reg_olatb, reg_gpioa, reg_gpiob,
}

abbrev pub pin_max : ℕ
pin_max = 7

-- `mcp23017_direction_t`, an integer that the operation checks.
abbrev pub dir_output : ℕ
dir_output = 0

abbrev pub dir_input : ℕ
dir_input = 1

module _ (P : Platform) where
  -- The guards that the pin operations share.
  abbrev pub with_pin : Pointer → ℕ → ℕ → State → (State → Err × State) → Err × State
  with_pin p port pin s k =
      if not (is_ready p s.dev)
      then (err invalid_state, s)
      else (if is_bad_port port
          then (err invalid_arg, s)
          else (if ltb pin_max pin then (err invalid_arg, s) else k s))

  -- The direction register of a port: the shadow takes the value first, then the chip.
  unfoldable pub update_dir : ℕ → ℕ → State → Err × State
  update_dir port v s =
      write_reg P (by_port port reg_iodira reg_iodirb) v (put_dev (put_dir port v s.dev) s)

  -- Likewise the output latch.
  unfoldable pub update_olat : ℕ → ℕ → State → Err × State
  update_olat port v s =
      write_reg P (by_port port reg_olata reg_olatb) v (put_dev (put_olat port v s.dev) s)

  -- `mcp23017_set_pin_direction`
  unfoldable pub set_pin_direction : Pointer → ℕ → ℕ → ℕ → State → Err × State
  set_pin_direction p port pin direction s = with_pin p port pin s λ s.
      let old = by_port port s.dev.dir_a s.dev.dir_b in
      if not (direction == dir_input) && not (direction == dir_output)
      then (err invalid_arg, s)
      else update_dir port (if direction == dir_input then set_bit old pin else clear_bit old pin) s

  -- `mcp23017_write_pin`
  unfoldable pub write_pin : Pointer → ℕ → ℕ → Bool → State → Err × State
  write_pin p port pin value s = with_pin p port pin s λ s.
      let old = by_port port s.dev.olat_a s.dev.olat_b in
      update_olat port (if value then set_bit old pin else clear_bit old pin) s

  -- `mcp23017_toggle_pin`
  unfoldable pub toggle_pin : Pointer → ℕ → ℕ → State → Err × State
  toggle_pin p port pin s = with_pin p port pin s λ s.
      let old = by_port port s.dev.olat_a s.dev.olat_b in update_olat port (toggle_bit old pin) s

  -- `mcp23017_read_pin`: the value stored through `out_value`, if it is.
  unfoldable pub read_pin : Pointer → ℕ → ℕ → Pointer → State → Err × Bool × State
  read_pin p port pin out s =
      if not (is_ready p s.dev)
      then (err invalid_state, false, s)
      else (if is_bad_port port || ltb pin_max pin || is_null out
          then (err invalid_arg, false, s)
          else (let (r, raw, s') = read_reg P (by_port port reg_gpioa reg_gpiob) s in
              (r, if is_ok r then test_bit raw pin else false, s')))
