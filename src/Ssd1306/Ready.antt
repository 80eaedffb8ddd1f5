-- ===== src/Ssd1306/Ready.antt =====
-- When the panel takes the next byte for a command (firmware/main/drivers/ic/ssd1306.c): after a start,
-- and after every drawing operation, whatever the driver acknowledges of it.
use fortunelabs_mainboard_l.Prelude.{
  ℕ, zero, suc, ◌+◌, ◌/◌, ◌%◌, ◌≤◌, ◌<◌, ◌≡◌, refl, ap, ◌∙◌, Bool, true, false, ◌&&◌, not, List, [],
  ◌∷◌, some, if◌then◌else◌, leb, replicate, arith, Bool-cases, inl, inr,
}
use fortunelabs_mainboard_l.Platform.{is_ok, Platform, transmit, Transfer}
use fortunelabs_mainboard_l.Bus.Traces.{acked}
use fortunelabs_mainboard_l.Ssd1306.Font.{glyphs}
use fortunelabs_mainboard_l.Ssd1306.Device.{
  State, write_page, page_bytes, clear_pages, clear_hw, show_text_hw, address_page, send_bytes,
  send_cmd,
}
use fortunelabs_mainboard_l.Ssd1306.Panel.{
  Panel, shown, panel, command, receive_bytes, takes_argument,
}
use fortunelabs_mainboard_l.Ssd1306.Rows.{send_bytes-acked, same_handle, fill-rest}

-- Whether a byte is a command that awaits an argument.
abbrev pub opens : ℕ → Bool
opens c = not (leb c 0x1F) && not (leb 0xB0 c && leb c 0xB7) && takes_argument c

pub command-awaits : (c : ℕ) (d : Panel) → (command c d).awaits ≡ (not d.awaits && opens c)
unfolding command
command-awaits c d = ground arith

module _ (P : Platform) (first : Panel) where
  abbrev pub awaits : State → Bool
  awaits s = (shown P first s).awaits

  send_bytes-handle : (bytes : List ℕ) (s : State) → (send_bytes P bytes s).1.handle ≡ s.handle
  unfolding send_bytes
  send_bytes-handle bytes s = refl

  panel-next :
      (h : ℕ) (bytes : List ℕ) (xs : List Transfer) (b : Bool)
      → panel h first (if b then transmit h bytes ∷ xs else xs)
        ≡ (if b then receive_bytes bytes (panel h first xs) else panel h first xs)
  unfolding panel
  panel-next h bytes xs true = rw (same_handle h) refl
  panel-next h bytes xs false = refl

  -- What a call to the display does to the panel.
  pub send_bytes-shown :
      (bytes : List ℕ) (s : State)
      → let (r, s') = send_bytes P bytes s in
        shown P first s'
        ≡ (if is_ok r then receive_bytes bytes (shown P first s) else shown P first s)
  send_bytes-shown bytes s =
      let (r, s') = send_bytes P bytes s in
      let (sent, _) = send_bytes-acked P bytes s in
      ap (λ (h : ℕ). panel h first (acked P s'.sys.trace)) (send_bytes-handle bytes s)
      ∙ ap (panel s.handle first) sent
      ∙ panel-next s.handle bytes (acked P s.sys.trace) (is_ok r)

  -- A command that opens none leaves none open, acknowledged or not.
  send_cmd-closed :
      (c : ℕ) (s : State) → opens c ≡ false → awaits s ≡ false → awaits (send_cmd P c s).1 ≡ false
  unfolding send_cmd
  send_cmd-closed c s o a =
      let sent = ap (λ (d : Panel). d.awaits) (send_bytes-shown (0x00 ∷ c ∷ []) s) in
      elim (Bool-cases (is_ok (send_bytes P (0x00 ∷ c ∷ []) s).0)) [
        | inl e ↦ (rw e at sent) ∙ command-awaits c (shown P first s) ∙ ground (arith, o)
        | inr e ↦ (rw e at sent) ∙ a
      ]

  send_bytes-closed :
      (bytes : List ℕ) (s : State)
      → awaits s ≡ false
      → awaits (send_bytes P (0x40 ∷ bytes) s).1 ≡ false
  send_bytes-closed bytes s a =
      let sent = ap (λ (d : Panel). d.awaits) (send_bytes-shown (0x40 ∷ bytes) s) in
      elim (Bool-cases (is_ok (send_bytes P (0x40 ∷ bytes) s).0)) [
        | inl e ↦ (rw e at sent) ∙ stream bytes
        | inr e ↦ (rw e at sent) ∙ a
      ]
    where
      stream : (bytes : List ℕ) → (receive_bytes (0x40 ∷ bytes) (shown P first s)).awaits ≡ false
      stream [] = a
      stream (b ∷ more) = (fill-rest (b ∷ more) (shown P first s)).1 ∙ a

  write_page-closed :
      (page : ℕ) (bytes : List ℕ) (s : State)
      → page < 8
      → awaits s ≡ false
      → awaits (write_page P page bytes s).1 ≡ false
  unfolding write_page address_page
  write_page-closed page bytes s k a =
      let s1 : State = (send_cmd P ((0xB0 + page) % 256) s).1 in
      let s2 : State = (send_cmd P 0x00 s1).1 in
      let s3 : State = (send_cmd P 0x10 s2).1 in
      send_bytes-closed bytes s3 (
        send_cmd-closed 0x10 s2 refl (
          send_cmd-closed 0x00 s1 refl
            (send_cmd-closed ((0xB0 + page) % 256) s (ground (arith, k)) a)))

  pub clear_pages-closed :
      (n page : ℕ) (s : State)
      → page + n ≤ 8
      → awaits s ≡ false
      → awaits (clear_pages P n page s).1 ≡ false
  unfolding clear_pages
  clear_pages-closed zero page s k a = a
  clear_pages-closed (suc n) page s k a =
      let blank : List ℕ = replicate page_bytes 0 in
      let s1 : State = (write_page P page blank s).1 in
      let here = write_page-closed page blank s (omega (arith, k)) a in
      ground (arith, here, clear_pages-closed n (page + 1) s1 (omega (arith, k)) here)

  clear_hw-closed : (s : State) → awaits s ≡ false → awaits (clear_hw P s).1 ≡ false
  unfolding clear_hw
  clear_hw-closed s a = ground (arith, a, clear_pages-closed 8 0 s (omega arith) a)

  -- A text leaves no command open, whatever the driver acknowledges of it.
  pub show_text_hw-closed :
      (beyond : ℕ → ℕ) (row : ℕ) (text : List ℕ) (s : State)
      → awaits s ≡ false
      → awaits (show_text_hw P beyond row (some text) s).1 ≡ false
  unfolding show_text_hw
  show_text_hw-closed beyond row text s a =
      ground (arith, a, write_page-closed row (glyphs beyond (s.width / 8) text) s)
