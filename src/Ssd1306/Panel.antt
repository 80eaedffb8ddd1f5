-- ===== src/Ssd1306/Panel.antt =====
-- What the panel shows: the commands of the controller that address and fill its memory, read off
-- the acknowledged transfers. It is described by the page addressing mode of its data sheet; that
-- the start sets this mode and turns the display on is read off the same transfers in Power.
use fortunelabs_mainboard_l.Prelude.{
  ℕ, ◌+◌, ◌-◌, ◌*◌, ◌/◌, ◌%◌, Bool, false, ◌&&◌, ◌||◌, List, [], ◌∷◌, if◌then◌else◌, ◌==◌, leb,
}
use fortunelabs_mainboard_l.Platform.{Platform, Transfer, transmit, receive, transmit_receive}
use fortunelabs_mainboard_l.Bus.Traces.{acked}
use fortunelabs_mainboard_l.Ssd1306.Device.{State}

-- The page and the column that the next byte goes to, whether an argument of a command is awaited,
-- and the memory, by page and column.
pub record Panel : Type 0 where
  pub page : ℕ
  pub column : ℕ
  pub awaits : Bool
  pub ram : ℕ → ℕ → ℕ

abbrev pub takes_argument : ℕ → Bool
takes_argument c =
    c == 0x20
    || c == 0x81
    || c == 0x8D
    || c == 0xA8
    || c == 0xD3
    || c == 0xD5
    || c == 0xD9
    || c == 0xDA
    || c == 0xDB

-- A command byte. An awaited argument is taken as such, whatever it is.
unfoldable pub command : ℕ → Panel → Panel
command c d =
    if d.awaits
    then record d { awaits = false }
    else (if leb c 0x0F
        then record d { column = d.column / 16 * 16 + c }
        else (if leb c 0x1F
            then record d { column = (c - 0x10) * 16 + d.column % 16 }
            else (if leb 0xB0 c && leb c 0xB7
                then record d { page = c - 0xB0 }
                else record d { awaits = takes_argument c })))

abbrev pub put_byte : ℕ → ℕ → ℕ → (ℕ → ℕ → ℕ) → ℕ → ℕ → ℕ
put_byte page column b ram p c = if p == page && c == column then b else ram p c

-- Bytes into the memory: the column goes up by one, and from the last to the first.
unfoldable pub fill : List ℕ → Panel → Panel
fill [] d = d
fill (b ∷ bytes) d =
    fill bytes (record d { column = (d.column + 1) % 128; ram = put_byte d.page d.column b d.ram })

-- A transfer of the bytes: control byte 0x00 and a command, or 0x40 and a stream.
abbrev pub receive_bytes : List ℕ → Panel → Panel
receive_bytes [] d = d
receive_bytes (control ∷ []) d = d
receive_bytes (control ∷ b ∷ more) d = if control == 0x40 then fill (b ∷ more) d else command b d

abbrev pub take_transfer : ℕ → Transfer → Panel → Panel
take_transfer h (transmit h' bytes) d = if h' == h then receive_bytes bytes d else d
take_transfer h (receive h' n) d = d
take_transfer h (transmit_receive h' bytes n) d = d

-- The panel with handle `h` after transfers, the newest first, from a first state.
unfoldable pub panel : ℕ → Panel → List Transfer → Panel
panel h first [] = first
panel h first (x ∷ xs) = take_transfer h x (panel h first xs)

-- The panel of a driver's state, as the trace shows it.
abbrev pub shown : Platform → Panel → State → Panel
shown P first s = panel s.handle first (acked P s.sys.trace)
