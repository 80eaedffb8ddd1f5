-- ===== src/Ssd1306/Starting.antt =====
-- The start of the display (firmware/main/drivers/ic/ssd1306.c): from `ssd1306_init_hw` on the panel
-- takes the next byte for a command; and a brightness that is left half set.
use fortunelabs_mainboard_l.Prelude.{
  ℕ, zero, suc, ◌+◌, ◌≡◌, refl, ap, ◌∙◌, Bool, true, false, ◌&&◌, not, List, [], ◌∷◌, replicate,
  arith, inl, inr,
}
use fortunelabs_mainboard_l.Platform.{ok, is_ok, Pointer, valid, Platform, Err-cases}
use fortunelabs_mainboard_l.Bus.Lifecycle.{add_device}
use fortunelabs_mainboard_l.Ssd1306.Device.{
  Config, State, write_page, page_bytes, clear_pages, clear_hw, init_hw, init_cmds, send_cmds,
  address_page, send_bytes, send_cmd, set_brightness_hw, scl_hz,
}
use fortunelabs_mainboard_l.Ssd1306.Panel.{Panel, shown, command}
use fortunelabs_mainboard_l.Ssd1306.Ready.{
  opens, command-awaits, awaits, send_bytes-shown, clear_pages-closed,
}

abbrev awaits_after : List ℕ → Bool → Bool
awaits_after [] b = b
awaits_after (c ∷ cs) b = awaits_after cs (not b && opens c)

-- After the commands of the start no argument is awaited, whether or not one was before.
init_cmds-closed : (b : Bool) → awaits_after init_cmds b ≡ false
init_cmds-closed true = refl
init_cmds-closed false = refl

module _ (P : Platform) where
  pub send_cmds-next :
      (c : ℕ) (cs : List ℕ) (s : State)
      → let (r, s1) = send_cmd P c s in r ≡ ok → send_cmds P (c ∷ cs) s ≡ send_cmds P cs s1
  unfolding send_cmds
  send_cmds-next c cs s e = ground (arith, e)

  pub send_cmds-stopped :
      (c : ℕ) (cs : List ℕ) (s : State)
      → is_ok (send_cmd P c s).0 ≡ false
      → is_ok (send_cmds P (c ∷ cs) s).0 ≡ false
  unfolding send_cmds
  send_cmds-stopped c cs s e = ground (arith, e)

  -- The display after its device was added.
  abbrev pub added : Config → State → State
  added cfg s =
      let (r, h, y) = add_device P cfg.bus cfg.i2c_addr scl_hz valid s.handle s.sys in
      record s { bus = cfg.bus; handle = h; width = cfg.width; height = cfg.height; sys = y }

  pub init_hw-ok :
      (p : Pointer) (cfg : Config) (s : State)
      → (init_hw P p cfg s).0 ≡ ok
      → let (r, s2) = send_cmds P init_cmds (added cfg s) in
        (r ≡ ok) × (init_hw P p cfg s ≡ clear_pages P 8 0 (record s2 { is_initialized = true }))
  unfolding init_hw clear_hw
  init_hw-ok p cfg s o = ground (arith, o)

module _ (P : Platform) (first : Panel) where
  send_cmd-opens :
      (c : ℕ) (s : State)
      → let (r, s1) = send_cmd P c s in
        r ≡ ok → awaits P first s1 ≡ (not (awaits P first s) && opens c)
  unfolding send_cmd
  send_cmd-opens c s e =
      let sent = ap (λ (d : Panel). d.awaits) (send_bytes-shown P first (0x00 ∷ c ∷ []) s) in
      (rw e at sent) ∙ command-awaits c (shown P first s)

  send_cmds-closed :
      (cmds : List ℕ) (s : State)
      → let (r, s') = send_cmds P cmds s in
        r ≡ ok → awaits P first s' ≡ awaits_after cmds (awaits P first s)
  send_cmds-closed [] s o = unfold send_cmds in refl
  send_cmds-closed (c ∷ cs) s o =
      let s1 : State = (send_cmd P c s).1 in
      elim (Err-cases (send_cmd P c s).0) [
        | inl e ↦
            let next = send_cmds-next P c cs s e in
            rw next
              (send_cmds-closed cs s1 (rw next at o) ∙ ap (awaits_after cs) (send_cmd-opens c s e))
        | inr (k, e) ↦ absurd (cc (send_cmds-stopped P c cs s (rw e refl), o))
      ]

  send_cmds-width : (cmds : List ℕ) (s : State) → (send_cmds P cmds s).1.width ≡ s.width
  unfolding send_cmds send_cmd send_bytes
  send_cmds-width [] s = refl
  send_cmds-width (c ∷ cs) s = ground (arith, send_cmds-width cs (send_cmd P c s).1)

  clear_pages-kept :
      (n page : ℕ) (s : State)
      → let s' = (clear_pages P n page s).1 in
        (s'.width ≡ s.width) × (s'.is_initialized ≡ s.is_initialized)
  unfolding clear_pages write_page address_page send_cmd send_bytes
  clear_pages-kept zero page s = (refl, refl)
  clear_pages-kept (suc n) page s =
      ground (arith, clear_pages-kept n (page + 1) (write_page P page (replicate page_bytes 0) s).1)

  -- A display that is started and awaits no argument, of the given width.
  pub record IsOn (width : ℕ) (s : State) : Type 0 where
    pub started : s.is_initialized ≡ true
    pub width_eq : s.width ≡ width
    pub closed : awaits P first s ≡ false

  -- If `ssd1306_init_hw` returns ESP_OK, the driver is started with the width of its configuration, and the
  -- next byte is taken for a command, even if the controller awaited an argument before.
  pub init_hw-IsOn :
      (p : Pointer) (cfg : Config) (s : State)
      → (init_hw P p cfg s).0 ≡ ok
      → IsOn cfg.width (init_hw P p cfg s).1
  init_hw-IsOn p cfg s o =
      let s1 : State = added P cfg s in
      let s2 : State = (send_cmds P init_cmds s1).1 in
      let s3 : State = record s2 { is_initialized = true } in
      let (sent, same) = init_hw-ok P p cfg s o in
      let kept = clear_pages-kept 8 0 s3 in
      let closed = send_cmds-closed init_cmds s1 sent ∙ init_cmds-closed (awaits P first s1) in
      rw same (record {
        started = kept.1;
        width_eq = kept.0 ∙ send_cmds-width init_cmds s1;
        closed = clear_pages-closed P first 8 0 s3 (omega arith) closed;
      })

  -- If the command of `ssd1306_set_brightness_hw` is acknowledged and its argument is not, the call
  -- fails and the controller takes the next byte, the page command of the next drawing, for it.
  pub set_brightness_hw-open :
      (level : ℕ) (s : State)
      → let (r, s1) = send_cmd P 0x81 s in
        let s' = (set_brightness_hw P level s).1 in
        s.is_initialized ≡ true
        → awaits P first s ≡ false
        → r ≡ ok
        → is_ok (send_cmd P level s1).0 ≡ false
        → (is_ok (set_brightness_hw P level s).0 ≡ false)
          × ((c : ℕ) → (command c (shown P first s')).page ≡ (shown P first s').page)
  set_brightness_hw-open level s i a o f =
      let s1 : State = (send_cmd P 0x81 s).1 in
      let s2 : State = (send_cmd P level s1).1 in
      let same : set_brightness_hw P level s ≡ send_cmd P level s1 =
        unfold set_brightness_hw in ground (arith, i, o) in
      let lost : shown P first s2 ≡ shown P first s1 =
        unfold send_cmd in (rw f at (send_bytes-shown P first (0x00 ∷ level ∷ []) s1)) in
      let opened : awaits P first s2 ≡ true =
        ap (λ (d : Panel). d.awaits) lost ∙ send_cmd-opens 0x81 s o ∙ ground (arith, a) in
      rw same (f, λ c. unfold command in ground (arith, opened))
