-- ===== src/Mcp23017/Guards.antt =====
-- What the operations of the expander refuse, and what a failed pin operation leaves.
use fortunelabs_mainboard_l.Prelude.{
  ℕ, ◌≡◌, ◌≢◌, ◌<◌, Bool, true, false, ◌&&◌, List, [], ◌∷◌, inl, inr, some, if◌then◌else◌, arith,
  ◌∙◌, set_bit, clear_bit, toggle_bit, test_bit, sym, ap,
}
use fortunelabs_mainboard_l.Platform.{
  Err, Err-cases, ok, err, invalid_state, is_ok, Pointer, valid, Platform,
}
use fortunelabs_mainboard_l.Mcp23017.Device.{
  State, is_ready, by_port, reg_olata, reg_olatb, set_port_direction, write_port, set_port_pullup,
  set_port_polarity, read_port,
}
use fortunelabs_mainboard_l.Mcp23017.Pins.{set_pin_direction, write_pin, toggle_pin, read_pin}
use fortunelabs_mainboard_l.Mcp23017.Latches.{register}
use fortunelabs_mainboard_l.Mcp23017.Sync.{IsSynced}
use fortunelabs_mainboard_l.Mcp23017.PinLaws.{
  IsAccepted, olat, write_pin-update, update_olat-dev, update_olat-failed, update_olat-IsSynced,
  set_pin_direction-IsSynced, write_pin-IsSynced, write_pin_bits,
}

some_eq : {a b : ℕ} → some a ≡ some b → a ≡ b
some_eq h = ground arith

-- The calls that write a pin of a port: its direction, its level, or the other level.
pub data PinCall : Type 0 where
  direct : ℕ → ℕ → ℕ → PinCall
  put : ℕ → ℕ → Bool → PinCall
  flip : ℕ → ℕ → PinCall

module _ (P : Platform) where
  abbrev pub call : Pointer → PinCall → State → Err × State
  call p (direct port pin direction) s = set_pin_direction P p port pin direction s
  call p (put port pin v) s = write_pin P p port pin v s
  call p (flip port pin) s = toggle_pin P p port pin s

  abbrev pub calls : Pointer → List PinCall → State → State
  calls p [] s = s
  calls p (c ∷ cs) s = calls p cs (call p c s).1

  abbrev pub all_ok : Pointer → List PinCall → State → Bool
  all_ok p [] s = true
  all_ok p (c ∷ cs) s = is_ok (call p c s).0 && all_ok p cs (call p c s).1

  toggle_pin-IsSynced :
      (p : Pointer) (port pin : ℕ) (s : State)
      → IsSynced P s
      → (toggle_pin P p port pin s).0 ≡ ok
      → IsSynced P (toggle_pin P p port pin s).1
  unfolding toggle_pin
  toggle_pin-IsSynced p port pin s h e =
      let old = by_port port s.dev.olat_a s.dev.olat_b in
      ground (arith, h, e, update_olat-IsSynced P port (toggle_bit old pin) s h)

  call-IsSynced :
      (p : Pointer) (c : PinCall) (s : State)
      → IsSynced P s
      → (call p c s).0 ≡ ok
      → IsSynced P (call p c s).1
  call-IsSynced p (direct port pin direction) s h e =
      set_pin_direction-IsSynced P p port pin direction s h e
  call-IsSynced p (put port pin v) s h e = write_pin-IsSynced P p port pin v s h e
  call-IsSynced p (flip port pin) s h e = toggle_pin-IsSynced p port pin s h e

  -- Any sequence of calls that write pins, on any ports, leaves the shadow registers equal to the
  -- chip's, if they were equal before the first call and every call returns ESP_OK.
  pub pins-IsSynced :
      (p : Pointer) (cs : List PinCall) (s : State)
      → IsSynced P s
      → all_ok p cs s ≡ true
      → IsSynced P (calls p cs s)
  pins-IsSynced p [] s h e = h
  pins-IsSynced p (c ∷ cs) s h e = elim (Err-cases (call p c s).0) [
    | inl o ↦ pins-IsSynced p cs (call p c s).1 (call-IsSynced p c s h o) (rw o at e)
    | inr (k, o) ↦ absurd (cc (rw o at e))
  ]

  olat-register :
      (port : ℕ) (s : State)
      → IsSynced P s
      → s.dev.is_initialized ≡ true
      → register P (by_port port reg_olata reg_olatb) s ≡ some (olat port s.dev)
  olat-register port s h r = ground (arith, h, r)

  write_pin_ready :
      (port pin : ℕ) (v : Bool) (s : State)
      → IsAccepted P port pin s
      → (write_pin P valid port pin v s).1.dev.is_initialized ≡ true
  write_pin_ready port pin v s h =
      let new = if v then set_bit (olat port s.dev) pin else clear_bit (olat port s.dev) pin in
      rw (write_pin-update P port pin v s h, update_olat-dev P port new s) (ground (arith, h.ready))

  -- `mcp23017_write_pin` changes the shadow latch before it writes to the chip: if the write fails
  -- and would have changed the pin, the shadow and the chip differ afterwards.
  pub write_pin_desyncs :
      (port pin : ℕ) (v : Bool) (s : State)
      → IsAccepted P port pin s
      → olat port s.dev < 256
      → IsSynced P s
      → is_ok (write_pin P valid port pin v s).0 ≡ false
      → test_bit (olat port s.dev) pin ≢ v
      → ¬ IsSynced P (write_pin P valid port pin v s).1
  write_pin_desyncs port pin v s h b synced e ne synced' =
      let new = if v then set_bit (olat port s.dev) pin else clear_bit (olat port s.dev) pin in
      let s' = (write_pin P valid port pin v s).1 in
      let call = write_pin-update P port pin v s h in
      let kept = update_olat-failed P port new s (rw call at e) in
      let before = olat-register port s synced h.ready in
      let after = olat-register port s' synced' (write_pin_ready port pin v s h) in
      let bits = write_pin_bits P port pin pin v s h b (omega (arith, h.pin_ok)) in
      let same : olat port s'.dev ≡ olat port s.dev = some_eq (
        sym after
        ∙ ap (λ t. register P (by_port port reg_olata reg_olatb) (t.1)) call
        ∙ kept
        ∙ before) in
      ne (sym (ap (λ o. test_bit o pin) same) ∙ bits ∙ ground arith)

  -- Without a ready driver every operation returns ESP_ERR_INVALID_STATE and changes nothing: no
  -- call is made to the bus.
  pub not_ready_refused :
      (p out : Pointer) (port pin direction v : ℕ) (b : Bool) (s : State)
      → is_ready p s.dev ≡ false
      → (set_port_direction P p port v s ≡ (err invalid_state, s))
        × (write_port P p port v s ≡ (err invalid_state, s))
        × (set_port_pullup P p port v s ≡ (err invalid_state, s))
        × (set_port_polarity P p port v s ≡ (err invalid_state, s))
        × (read_port P p port out s ≡ (err invalid_state, 0, s))
        × (set_pin_direction P p port pin direction s ≡ (err invalid_state, s))
        × (write_pin P p port pin b s ≡ (err invalid_state, s))
        × (toggle_pin P p port pin s ≡ (err invalid_state, s))
        × (read_pin P p port pin out s ≡ (err invalid_state, false, s))
  unfolding set_port_direction write_port set_port_pullup set_port_polarity read_port
      set_pin_direction write_pin toggle_pin read_pin
  not_ready_refused p out port pin direction v b s h =
      (rw h, rw h, rw h, rw h, rw h, rw h, rw h, rw h, rw h)
