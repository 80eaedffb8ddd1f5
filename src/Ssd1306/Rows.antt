-- ===== src/Ssd1306/Rows.antt =====
-- What a row of the panel holds after the driver wrote it.
use fortunelabs_mainboard_l.Prelude.{
  ℕ, ◌+◌, ◌-◌, ◌%◌, ◌≤◌, ◌<◌, ◌≡◌, refl, ap, ◌∙◌, true, false, ◌&&◌, List, [], ◌∷◌, if◌then◌else◌,
  ◌==◌, ==_iff, ltb, leb, length, get_or, arith,
}
use fortunelabs_mainboard_l.Platform.{is_ok, Platform, Transfer, transmit}
use fortunelabs_mainboard_l.Bus.Transfers.{write}
use fortunelabs_mainboard_l.Bus.Traces.{acked}
use fortunelabs_mainboard_l.Bus.Delivery.{transfer_with-acked}
use fortunelabs_mainboard_l.Ssd1306.Device.{State, send_bytes, send_cmd, address_page, write_page}
use fortunelabs_mainboard_l.Ssd1306.Panel.{Panel, command, put_byte, fill, panel, shown}

-- A byte of the memory after bytes were written from a column on.
abbrev pub overlay : ℕ → ℕ → List ℕ → (ℕ → ℕ → ℕ) → ℕ → ℕ → ℕ
overlay page column bytes ram p c =
    if p == page && leb column c && ltb c (column + length bytes)
    then get_or bytes (c - column) 0
    else ram p c

pub fill-overlay :
    (bytes : List ℕ) (d : Panel) (p c : ℕ)
    → d.column + length bytes ≤ 128
    → (fill bytes d).ram p c ≡ overlay d.page d.column bytes d.ram p c
unfolding fill
fill-overlay [] d p c h = ground arith
fill-overlay (b ∷ []) d p c h = ground arith
fill-overlay (b ∷ b' ∷ bytes) d p c h =
    let d' : Panel = record d {
      column = (d.column + 1) % 128;
      ram = put_byte d.page d.column b d.ram;
    } in
    ground (arith, fill-overlay (b' ∷ bytes) d' p c)

pub fill-rest :
    (bytes : List ℕ) (d : Panel)
    → ((fill bytes d).page ≡ d.page) × ((fill bytes d).awaits ≡ d.awaits)
unfolding fill
fill-rest [] d = (refl, refl)
fill-rest (b ∷ bytes) d =
    fill-rest bytes
      (record d { column = (d.column + 1) % 128; ram = put_byte d.page d.column b d.ram })

-- The transfers of a page, after others.
abbrev pub page_transfers : ℕ → ℕ → List ℕ → List Transfer → List Transfer
page_transfers h page bytes xs =
    transmit h (0x40 ∷ bytes)
    ∷ transmit h (0x00 ∷ 0x10 ∷ [])
    ∷ transmit h (0x00 ∷ 0x00 ∷ [])
    ∷ transmit h (0x00 ∷ (0xB0 + page) % 256 ∷ [])
    ∷ xs

-- A command that sets the page, and those that set the column to 0.
command_page :
    (page : ℕ) (d : Panel)
    → d.awaits ≡ false
    → page < 8
    → command ((0xB0 + page) % 256) d ≡ record d { page = page }
unfolding command
command_page page d a h = ground (arith, a, h)

pub command_column :
    (d : Panel) → d.awaits ≡ false → command 0x10 (command 0x00 d) ≡ record d { column = 0 }
unfolding command
command_column d a = ground (arith, a)

pub same_handle : (h : ℕ) → (h == h) ≡ true
same_handle h = (==_iff h h).1 refl

panel-page_transfers :
    (h page b : ℕ) (bytes : List ℕ) (first : Panel) (xs : List Transfer)
    → (panel h first xs).awaits ≡ false
    → page < 8
    → panel h first (page_transfers h page (b ∷ bytes) xs)
      ≡ fill (b ∷ bytes) (record (panel h first xs) { page = page; column = 0 })
unfolding panel
panel-page_transfers h page b bytes first xs a k =
    let d = panel h first xs in
    rw (same_handle h) (
      ap (fill (b ∷ bytes)) (
        ap (λ (e : Panel). command 0x10 (command 0x00 e)) (command_page page d a k)
        ∙ command_column (record d { page = page }) a))

module _ (P : Platform) where
  pub send_bytes-acked :
      (bytes : List ℕ) (s : State)
      → let (r, s') = send_bytes P bytes s in
        (acked P s'.sys.trace ≡ (
          if is_ok r then transmit s.handle bytes ∷ acked P s.sys.trace else acked P s.sys.trace))
        × (s' ≡ record s { sys = s'.sys })
  unfolding send_bytes write
  send_bytes-acked bytes s = ((transfer_with-acked P (transmit s.handle bytes) s.bus s.sys).0, refl)

  write_page-acked :
      (page : ℕ) (bytes : List ℕ) (s : State)
      → let (r, s') = write_page P page bytes s in
        length (acked P s'.sys.trace) ≡ length (acked P s.sys.trace) + 4
        → acked P s'.sys.trace ≡ page_transfers s.handle page bytes (acked P s.sys.trace)
  unfolding write_page address_page send_cmd
  write_page-acked page bytes s =
      let s1 = (send_bytes P (0x00 ∷ (0xB0 + page) % 256 ∷ []) s).1 in
      let s2 = (send_bytes P (0x00 ∷ 0x00 ∷ []) s1).1 in
      let s3 = (send_bytes P (0x00 ∷ 0x10 ∷ []) s2).1 in
      ground (
        arith,
        send_bytes-acked (0x00 ∷ (0xB0 + page) % 256 ∷ []) s,
        send_bytes-acked (0x00 ∷ 0x00 ∷ []) s1,
        send_bytes-acked (0x00 ∷ 0x10 ∷ []) s2,
        send_bytes-acked (0x40 ∷ bytes) s3,
      )

  write_page-handle :
      (page : ℕ) (bytes : List ℕ) (s : State) → (write_page P page bytes s).1.handle ≡ s.handle
  unfolding write_page address_page send_cmd send_bytes
  write_page-handle page bytes s = refl

  -- What a page write leaves on the panel if its four transfers were acknowledged.
  pub record IsWritten (page : ℕ) (bytes : List ℕ) (d d' : Panel) : Type 0 where
    pub ready : d'.awaits ≡ false
    pub bytes_at : (p c : ℕ) → c < 128 → d'.ram p c ≡ overlay page 0 bytes d.ram p c

  pub write_page-IsWritten :
      (page b : ℕ) (bytes : List ℕ) (first : Panel) (s : State)
      → let s' = (write_page P page (b ∷ bytes) s).1 in
        page < 8
        → length bytes < 128
        → (shown P first s).awaits ≡ false
        → length (acked P s'.sys.trace) ≡ length (acked P s.sys.trace) + 4
        → IsWritten page (b ∷ bytes) (shown P first s) (shown P first s')
  write_page-IsWritten page b bytes first s k fits a full =
      let s' = (write_page P page (b ∷ bytes) s).1 in
      let d = record (shown P first s) { page = page; column = 0 } in
      let same : shown P first s' ≡ fill (b ∷ bytes) d =
        rw (write_page-handle page (b ∷ bytes) s, write_page-acked page (b ∷ bytes) s full)
          (panel-page_transfers s.handle page b bytes first (acked P s.sys.trace) a k) in
      rw same (record {
        ready = (fill-rest (b ∷ bytes) d).1 ∙ a;
        bytes_at = λ p c lt. fill-overlay (b ∷ bytes) d p c (omega (arith, fits));
      })
