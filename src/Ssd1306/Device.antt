-- ===== src/Ssd1306/Device.antt =====
-- firmware/main/drivers/ic/ssd1306.c: the operations of the display driver.
use fortunelabs_mainboard_l.Prelude.{
  ℕ, zero, suc, ◌+◌, ◌/◌, ◌%◌, Bool, true, false, not, ◌||◌, List, [], ◌∷◌, Option, none, some,
  if◌then◌else◌, leb, replicate,
}
use fortunelabs_mainboard_l.Platform.{
  Err, ok, err, fail, invalid_arg, Pointer, null, valid, is_null, Platform,
}
use fortunelabs_mainboard_l.Bus.State.{Sys}
use fortunelabs_mainboard_l.Bus.Lifecycle.{add_device}
use fortunelabs_mainboard_l.Bus.Transfers.{write}
use fortunelabs_mainboard_l.Ssd1306.Font.{glyphs}

-- `display_config_t`
pub record Config : Type 0 where
  pub bus : Pointer
  pub i2c_addr : ℕ
  pub width : ℕ  -- uint16_t
  pub height : ℕ  -- uint16_t

-- The static variables of the file, with the bus.
pub record State : Type 0 where
  pub bus : Pointer
  pub handle : ℕ
  pub width : ℕ
  pub height : ℕ
  pub is_initialized : Bool
  pub sys : Sys

abbrev pub scl_hz : ℕ
scl_hz = 400000

-- The bytes of a page: `zero_buffer` without its control byte.
abbrev pub page_bytes : ℕ
page_bytes = 128

-- `init_cmds`
abbrev pub init_cmds : List ℕ
init_cmds =
    0xAE ∷ 0xD5 ∷ 0x80 ∷ 0xA8 ∷ 0x3F ∷ 0xD3 ∷ 0x00 ∷ 0x40 ∷ 0x8D ∷ 0x14 ∷ 0x20 ∷ 0x02 ∷ 0xA1 ∷ 0xC8
    ∷ 0xDA ∷ 0x12 ∷ 0x81 ∷ 0xCF ∷ 0xD9 ∷ 0xF1 ∷ 0xDB ∷ 0x40 ∷ 0xA4 ∷ 0xA6 ∷ 0xAF ∷ []

module _ (P : Platform) where
  -- `i2c_bus_write` to the display.
  unfoldable pub send_bytes : List ℕ → State → Err × State
  send_bytes bytes s = let (r, y) = write P s.bus s.handle bytes s.sys in (r, record s { sys = y })

  -- `_ssd1306_send_cmd`
  unfoldable pub send_cmd : ℕ → State → Err × State
  send_cmd cmd s = send_bytes (0x00 ∷ cmd ∷ []) s

  -- The loop over `init_cmds`, which stops at the first error.
  unfoldable pub send_cmds : List ℕ → State → Err × State
  send_cmds [] s = (ok, s)
  send_cmds (cmd ∷ cmds) s =
      let (r, s') = send_cmd cmd s in elim r [ ok ↦ send_cmds cmds s' | err c ↦ (err c, s') ]

  -- The page address and the two halves of the column address, whose errors are not read.
  unfoldable pub address_page : ℕ → State → State
  address_page page s = (send_cmd 0x10 (send_cmd 0x00 (send_cmd ((0xB0 + page) % 256) s).1).1).1

  -- A page is addressed and written from its first column on.
  unfoldable pub write_page : ℕ → List ℕ → State → Err × State
  write_page page bytes s = send_bytes (0x40 ∷ bytes) (address_page page s)

  -- The loop over the pages, with the rounds left.
  unfoldable pub clear_pages : ℕ → ℕ → State → Err × State
  clear_pages zero page s = (ok, s)
  clear_pages (suc n) page s =
      let (r, s') = write_page page (replicate page_bytes 0) s in
      elim r [ ok ↦ clear_pages n (page + 1) s' | err c ↦ (err c, s') ]

  -- `ssd1306_clear_hw`
  unfoldable pub clear_hw : State → Err × State
  clear_hw s = if not s.is_initialized then (err fail, s) else clear_pages 8 0 s

  -- `ssd1306_init_hw`
  unfoldable pub init_hw : Pointer → Config → State → Err × State
  init_hw p cfg s =
      if is_null p || is_null cfg.bus
      then (err invalid_arg, s)
      else (let (r, h, y) = add_device P cfg.bus cfg.i2c_addr scl_hz valid s.handle s.sys in
          let s1 = record s {
            bus = cfg.bus;
            handle = h;
            width = cfg.width;
            height = cfg.height;
            sys = y;
          } in
          let (r', s2) = send_cmds init_cmds s1 in
          elim r [
            | err c ↦ (err c, s1)
            | ok ↦ elim r' [
              | err c ↦ (err c, s2)
              | ok ↦ clear_hw (record s2 { is_initialized = true })
            ]
          ])

  -- `ssd1306_show_text_hw`; `none` is a NULL text. `beyond` is the memory after the font.
  unfoldable pub show_text_hw : (ℕ → ℕ) → ℕ → Option (List ℕ) → State → Err × State
  show_text_hw beyond row none s = (err fail, s)
  show_text_hw beyond row (some text) s =
      if not s.is_initialized
      then (err fail, s)
      else (if leb 8 row
          then (err invalid_arg, s)
          else write_page row (glyphs beyond (s.width / 8) text) s)

  -- `ssd1306_set_brightness_hw`
  unfoldable pub set_brightness_hw : ℕ → State → Err × State
  set_brightness_hw level s =
      if not s.is_initialized
      then (err fail, s)
      else (let (r, s1) = send_cmd 0x81 s in
          elim r [ ok ↦ send_cmd level s1 | err c ↦ (err c, s1) ])

  -- `ssd1306_deinit_hw`
  unfoldable pub deinit_hw : State → State
  deinit_hw s =
      if not s.is_initialized
      then s
      else record (send_cmd 0xAE s).1 { is_initialized = false; bus = null; handle = 0 }
