-- ===== src/Ssd1306/Faults.antt =====
-- Where firmware/main/drivers/ic/ssd1306.c writes what it does not mean to: a page address that is
-- lost, characters behind the font, digits without a glyph, and a width that is too large.
use fortunelabs_mainboard_l.Prelude.{
  ℕ, ◌+◌, ◌-◌, ◌*◌, ◌/◌, ◌%◌, ◌≤◌, ◌<◌, ◌≡◌, refl, ap, false, List, [], ◌∷◌, length, arith,
}
use fortunelabs_mainboard_l.Platform.{ok, is_ok, Platform, transmit, Transfer}
use fortunelabs_mainboard_l.Bus.Traces.{acked}
use fortunelabs_mainboard_l.Ssd1306.Font.{font_entries, font_index, font_8x8, memory_row, glyphs}
use fortunelabs_mainboard_l.Ssd1306.Device.{State, write_page, address_page, send_bytes, send_cmd}
use fortunelabs_mainboard_l.Ssd1306.Panel.{Panel, shown, panel, fill}
use fortunelabs_mainboard_l.Ssd1306.Rows.{
  overlay, send_bytes-acked, fill-overlay, command_column, same_handle,
}
use fortunelabs_mainboard_l.Ssd1306.Texts.{length-glyphs}

-- The transfers of a page whose first command is lost.
abbrev rest_transfers : ℕ → List ℕ → List Transfer → List Transfer
rest_transfers h bytes xs =
    transmit h (0x40 ∷ bytes) ∷ transmit h (0x00 ∷ 0x10 ∷ []) ∷ transmit h (0x00 ∷ 0x00 ∷ []) ∷ xs

panel-rest_transfers :
    (h b : ℕ) (bytes : List ℕ) (first : Panel) (xs : List Transfer)
    → (panel h first xs).awaits ≡ false
    → panel h first (rest_transfers h (b ∷ bytes) xs)
      ≡ fill (b ∷ bytes) (record (panel h first xs) { column = 0 })
unfolding panel
panel-rest_transfers h b bytes first xs a =
    rw (same_handle h) (ap (fill (b ∷ bytes)) (command_column (panel h first xs) a))

module _ (P : Platform) where
  -- The page command fails; the two column commands and the bytes that follow do not.
  pub record IsLost (page : ℕ) (bytes : List ℕ) (s : State) : Type 0 where
    pub lost : is_ok (send_cmd P ((0xB0 + page) % 256) s).0 ≡ false
    pub low : (send_cmd P 0x00 (send_cmd P ((0xB0 + page) % 256) s).1).0 ≡ ok
    pub high : (send_cmd P 0x10 (send_cmd P 0x00 (send_cmd P ((0xB0 + page) % 256) s).1).1).0 ≡ ok
    pub bytes_sent :
        let s3 = (send_cmd P 0x10 (send_cmd P 0x00 (send_cmd P ((0xB0 + page) % 256) s).1).1).1 in
        (send_bytes P (0x40 ∷ bytes) s3).0 ≡ ok

  lost_ok :
      (page : ℕ) (bytes : List ℕ) (s : State)
      → IsLost page bytes s
      → (write_page P page bytes s).0 ≡ ok
  unfolding write_page address_page
  lost_ok page bytes s l = l.bytes_sent

  lost-acked :
      (page : ℕ) (bytes : List ℕ) (s : State)
      → IsLost page bytes s
      → (write_page P page bytes s).0 ≡ ok
      → acked P (write_page P page bytes s).1.sys.trace
        ≡ rest_transfers s.handle bytes (acked P s.sys.trace)
  unfolding write_page address_page send_cmd
  lost-acked page bytes s l o =
      let s1 : State = (send_bytes P (0x00 ∷ (0xB0 + page) % 256 ∷ []) s).1 in
      let s2 : State = (send_bytes P (0x00 ∷ 0x00 ∷ []) s1).1 in
      let s3 : State = (send_bytes P (0x00 ∷ 0x10 ∷ []) s2).1 in
      ground (
        arith,
        l.lost,
        l.low,
        l.high,
        o,
        send_bytes-acked P (0x00 ∷ (0xB0 + page) % 256 ∷ []) s,
        send_bytes-acked P (0x00 ∷ 0x00 ∷ []) s1,
        send_bytes-acked P (0x00 ∷ 0x10 ∷ []) s2,
        send_bytes-acked P (0x40 ∷ bytes) s3,
      )

  lost-handle :
      (page : ℕ) (bytes : List ℕ) (s : State) → (write_page P page bytes s).1.handle ≡ s.handle
  unfolding write_page address_page send_cmd send_bytes
  lost-handle page bytes s = refl

  -- If, of the four transfers of a page write of at most 128 bytes to a panel that awaits no
  -- argument, only the page command fails, the write returns ESP_OK all the same, and the panel
  -- then shows the bytes on the page that was addressed before, whatever page was asked for.
  pub write_page-lost :
      (page b p c : ℕ) (bytes : List ℕ) (first : Panel) (s : State)
      → let (r, s') = write_page P page (b ∷ bytes) s in
        let d = shown P first s in
        IsLost page (b ∷ bytes) s
        → length bytes < 128
        → d.awaits ≡ false
        → (r ≡ ok) × ((shown P first s').ram p c ≡ overlay d.page 0 (b ∷ bytes) d.ram p c)
  write_page-lost page b p c bytes first s l fits a =
      let o = lost_ok page (b ∷ bytes) s l in
      let s' : State = (write_page P page (b ∷ bytes) s).1 in
      let d = record (shown P first s) { column = 0 } in
      let same : shown P first s' ≡ fill (b ∷ bytes) d =
        rw (lost-handle page (b ∷ bytes) s, lost-acked page (b ∷ bytes) s l o)
          (panel-rest_transfers s.handle b bytes first (acked P s.sys.trace) a) in
      (o, rw same (fill-overlay (b ∷ bytes) d p c (omega (arith, fits))))

-- The characters from Z (0x5A) to the underscore (0x5F), which the code accepts, have an index
-- behind the end of the font, and what is drawn for them is the memory that stands there.
pub font_index-bounds :
    (beyond : ℕ → ℕ) (ch : ℕ)
    → 0x5A ≤ ch
    → ch ≤ 0x5F
    → (font_entries ≤ font_index ch)
      × (font_8x8 beyond (font_index ch) ≡ memory_row beyond (8 * (ch - 0x5A)))
unfolding font_index font_8x8
font_index-bounds beyond ch lo hi = ground (arith, lo, hi)

-- The digits 6 to 9 are drawn as spaces.
pub digits-blank :
    (beyond : ℕ → ℕ) (ch : ℕ)
    → 0x36 ≤ ch
    → ch ≤ 0x39
    → font_8x8 beyond (font_index ch) ≡ font_8x8 beyond (font_index 0x20)
unfolding font_index font_8x8
digits-blank beyond ch lo hi = ground (arith, lo, hi)

-- The bytes of a row with their control byte fit the buffer of 129 bytes exactly if the width is
-- below 136.
pub stream-bounds :
    (beyond : ℕ → ℕ) (width : ℕ) (text : List ℕ)
    → (1 + length (glyphs beyond (width / 8) text) ≤ 129 → width < 136)
      × (width < 136 → 1 + length (glyphs beyond (width / 8) text) ≤ 129)
stream-bounds beyond width text =
    let n = length-glyphs beyond (width / 8) text in
    ((λ h. omega (arith, n)), λ h. omega (arith, n))
