-- ===== src/Ssd1306/Shown.antt =====
-- What the panel shows after `ssd1306_show_text_hw` and `ssd1306_clear_hw`
-- (firmware/main/drivers/ic/ssd1306.c).
use fortunelabs_mainboard_l.Prelude.{
  ℕ, zero, suc, ◌+◌, ◌*◌, ◌/◌, ◌%◌, ◌≤◌, ◌<◌, ◌≡◌, refl, ◌∙◌, true, false, ◌&&◌, List, [], ◌∷◌,
  some, if◌then◌else◌, ◌==◌, ltb, leb, length, get_or, replicate, arith, Bool-cases, inl, inr,
}
use fortunelabs_mainboard_l.Platform.{ok, is_ok, Platform, Err-cases}
use fortunelabs_mainboard_l.Bus.Traces.{acked}
use fortunelabs_mainboard_l.Ssd1306.Font.{glyphs}
use fortunelabs_mainboard_l.Ssd1306.Device.{
  State, write_page, page_bytes, clear_pages, clear_hw, show_text_hw, address_page, send_bytes,
  send_cmd,
}
use fortunelabs_mainboard_l.Ssd1306.Panel.{Panel, shown}
use fortunelabs_mainboard_l.Ssd1306.Rows.{IsWritten, write_page-IsWritten, send_bytes-acked}
use fortunelabs_mainboard_l.Ssd1306.Texts.{text_byte, length-glyphs, glyphs-text_byte}

get_or-replicate : (n k : ℕ) → ◌≡◌ {A = ℕ} (get_or (replicate n 0) k 0) 0
get_or-replicate zero k = refl
get_or-replicate (suc n) zero = refl
get_or-replicate (suc n) (suc k) = get_or-replicate n k

module _ (P : Platform) (first : Panel) where
  -- A page of any bytes that are at least one and fit.
  bytes-IsWritten :
      (page : ℕ) (bytes : List ℕ) (s : State)
      → let s' = (write_page P page bytes s).1 in
        page < 8
        → 0 < length bytes
        → length bytes ≤ 128
        → (shown P first s).awaits ≡ false
        → length (acked P s'.sys.trace) ≡ length (acked P s.sys.trace) + 4
        → IsWritten P page bytes (shown P first s) (shown P first s')
  bytes-IsWritten page [] s k some_byte fits a full = absurd (omega (arith, some_byte))
  bytes-IsWritten page (b ∷ bytes) s k some_byte fits a full =
      write_page-IsWritten P page b bytes first s k (omega (arith, fits)) a full

  -- What a text of a row leaves on the panel.
  pub record IsShown (beyond : ℕ → ℕ) (row : ℕ) (text : List ℕ) (width : ℕ) (d d' : Panel)
      : Type 0 where
    pub ready : d'.awaits ≡ false
    pub bytes_at :
        (p c : ℕ)
        → c < 128
        → d'.ram p c
          ≡ (if p == row && ltb c (8 * (width / 8)) then text_byte beyond text c else d.ram p c)

  -- If the driver acknowledges the four transfers of `ssd1306_show_text_hw` to a row below 8, and the
  -- width is at least 8 and below 136, then the row shows the glyphs of the text in its first
  -- `width / 8` character cells, spaces where the text is too short, and every other byte of the
  -- panel is what it was.
  pub show_text_hw-IsShown :
      (beyond : ℕ → ℕ) (row : ℕ) (text : List ℕ) (s : State)
      → let s' = (show_text_hw P beyond row (some text) s).1 in
        s.is_initialized ≡ true
        → row < 8
        → 8 ≤ s.width
        → s.width < 136
        → (shown P first s).awaits ≡ false
        → length (acked P s'.sys.trace) ≡ length (acked P s.sys.trace) + 4
        → IsShown beyond row text s.width (shown P first s) (shown P first s')
  show_text_hw-IsShown beyond row text s i k wide narrow a full =
      let bytes = glyphs beyond (s.width / 8) text in
      let n = length-glyphs beyond (s.width / 8) text in
      let open_row : leb 8 row ≡ false = ground (arith, k) in
      let same : show_text_hw P beyond row (some text) s ≡ write_page P row bytes s =
        unfold show_text_hw in rw (i, open_row) refl in
      let written : IsWritten P row bytes (shown P first s)
          (shown P first (write_page P row bytes s).1) =
        bytes-IsWritten row bytes s k (omega (arith, n)) (omega (arith, n)) a (rw same at full) in
      rw same (record {
        ready = written.ready;
        bytes_at = λ p c lt.
            written.bytes_at p c lt
            ∙ ground (arith, n, glyphs-text_byte beyond (s.width / 8) text c);
      })

  write_page-at_most :
      (page : ℕ) (bytes : List ℕ) (s : State)
      → length (acked P (write_page P page bytes s).1.sys.trace) ≤ length (acked P s.sys.trace) + 4
  unfolding write_page address_page send_cmd
  write_page-at_most page bytes s =
      let s1 = (send_bytes P (0x00 ∷ (0xB0 + page) % 256 ∷ []) s).1 in
      let s2 = (send_bytes P (0x00 ∷ 0x00 ∷ []) s1).1 in
      let s3 = (send_bytes P (0x00 ∷ 0x10 ∷ []) s2).1 in
      ground (
        arith,
        send_bytes-acked P (0x00 ∷ (0xB0 + page) % 256 ∷ []) s,
        send_bytes-acked P (0x00 ∷ 0x00 ∷ []) s1,
        send_bytes-acked P (0x00 ∷ 0x10 ∷ []) s2,
        send_bytes-acked P (0x40 ∷ bytes) s3,
      )

  -- At most four transfers are acknowledged, and none to a row that the panel does not have.
  pub show_text_hw-at_most :
      (beyond : ℕ → ℕ) (row : ℕ) (text : List ℕ) (s : State)
      → let s' = (show_text_hw P beyond row (some text) s).1 in
        length (acked P s'.sys.trace) ≤ length (acked P s.sys.trace) + (if ltb row 8 then 4 else 0)
  unfolding show_text_hw
  show_text_hw-at_most beyond row text s =
      ground (arith, write_page-at_most row (glyphs beyond (s.width / 8) text) s)

  clear_pages-at_most :
      (n page : ℕ) (s : State)
      → length (acked P (clear_pages P n page s).1.sys.trace) ≤ length (acked P s.sys.trace) + 4 * n
  unfolding clear_pages
  clear_pages-at_most zero page s = omega arith
  clear_pages-at_most (suc n) page s =
      let blank : List ℕ = replicate page_bytes 0 in
      let s1 : State = (write_page P page blank s).1 in
      ground (arith, write_page-at_most page blank s, clear_pages-at_most n (page + 1) s1)

  -- What a run of pages that was cleared holds.
  record IsCleared (page n : ℕ) (d d' : Panel) : Type 0 where
    ready : d'.awaits ≡ false
    bytes_at :
        (p c : ℕ) → c < 128 → d'.ram p c ≡ (if leb page p && ltb p (page + n) then 0 else d.ram p c)

  clear_pages-next :
      (n page : ℕ) (s : State)
      → let (r, s1) = write_page P page (replicate page_bytes 0) s in
        r ≡ ok → clear_pages P (suc n) page s ≡ clear_pages P n (page + 1) s1
  unfolding clear_pages
  clear_pages-next n page s e = ground (arith, e)

  clear_pages-stopped :
      (n page : ℕ) (s : State)
      → is_ok (write_page P page (replicate page_bytes 0) s).0 ≡ false
      → is_ok (clear_pages P (suc n) page s).0 ≡ false
  unfolding clear_pages
  clear_pages-stopped n page s e = ground (arith, e)

  clear_pages-IsCleared :
      (n page : ℕ) (s : State)
      → let (r, s') = clear_pages P n page s in
        page + n ≤ 8
        → (shown P first s).awaits ≡ false
        → r ≡ ok
        → length (acked P s'.sys.trace) ≡ length (acked P s.sys.trace) + 4 * n
        → IsCleared page n (shown P first s) (shown P first s')
  clear_pages-IsCleared zero page s k a o full =
      unfold clear_pages in record { ready = a; bytes_at = λ p c lt. ground arith }
  clear_pages-IsCleared (suc n) page s k a o full =
      let blank : List ℕ = replicate page_bytes 0 in
      let s1 : State = (write_page P page blank s).1 in
      elim (Err-cases (write_page P page blank s).0) [
        | inl e ↦
            let next = clear_pages-next n page s e in
            let full' = rw next at full in
            let here = write_page-at_most page blank s in
            let rest = clear_pages-at_most n (page + 1) s1 in
            let w : IsWritten P page blank (shown P first s) (shown P first s1) =
              bytes-IsWritten page blank s (omega arith) (omega arith) (omega arith) a
                (omega (arith, full', here, rest)) in
            let later =
              clear_pages-IsCleared n (page + 1) s1 (omega arith) w.ready (rw next at o)
                (omega (arith, full', here, rest)) in
            rw next (record {
              ready = later.ready;
              bytes_at = λ p c lt.
                  ground (
                    arith,
                    later.bytes_at p c lt,
                    w.bytes_at p c lt,
                    get_or-replicate page_bytes c,
                  );
            })
        | inr (c, e) ↦ absurd (cc (clear_pages-stopped n page s (rw e refl), o))
      ]

  -- If `ssd1306_clear_hw` returns ESP_OK and the driver acknowledged all of its 32 transfers, then
  -- every byte of the eight pages of the panel is 0.
  pub clear_hw-blank :
      (s : State)
      → let (r, s') = clear_hw P s in
        (shown P first s).awaits ≡ false
        → r ≡ ok
        → length (acked P s'.sys.trace) ≡ length (acked P s.sys.trace) + 32
        → (p c : ℕ) → p < 8
        → c < 128
        → (shown P first s').ram p c ≡ 0
  clear_hw-blank s a o full p c lt8 lt = elim (Bool-cases s.is_initialized) [
    | inl i ↦
        let same : clear_hw P s ≡ clear_pages P 8 0 s = unfold clear_hw in ground (arith, i) in
        let cleared =
          clear_pages-IsCleared 8 0 s (omega arith) a (rw same at o) (rw same at full) in
        rw same (cleared.bytes_at p c lt ∙ ground (arith, lt8))
    | inr i ↦ absurd (unfold clear_hw in ground (arith, i, o))
  ]
