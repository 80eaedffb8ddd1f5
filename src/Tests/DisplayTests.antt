-- ===== src/Tests/DisplayTests.antt =====
-- The display on concrete inputs.
use fortunelabs_mainboard_l.Prelude.{ℕ, ◌≡◌, refl, true, false, List, [], ◌∷◌, if◌then◌else◌, arith}
use fortunelabs_mainboard_l.Prelude.Text.{codes, eq_bytes}
use fortunelabs_mainboard_l.Platform.{
  Err, ok, err, fail, Call, Platform, transmit, i2c, transfer, valid,
}
use fortunelabs_mainboard_l.Bus.Transfers
use fortunelabs_mainboard_l.Bus.Lifecycle
use fortunelabs_mainboard_l.Ssd1306.Power.{Power, IsLit, powered, started-IsLit}
use fortunelabs_mainboard_l.Ssd1306.Font.{font_index, font_8x8, glyphs}
use fortunelabs_mainboard_l.Ssd1306.Device.{
  Config, State, init_hw, send_cmds, show_text_hw, write_page, clear_hw, clear_pages, address_page,
  send_cmd, send_bytes,
}
use fortunelabs_mainboard_l.Ssd1306.Panel.{Panel, shown, panel, command, fill}
use fortunelabs_mainboard_l.Ssd1306.Rows.{overlay}
use fortunelabs_mainboard_l.Ssd1306.Faults.{write_page-lost, IsLost}
use fortunelabs_mainboard_l.Ssd1306.Task.{Message, ssd1306_driver, task_display}
use fortunelabs_mainboard_l.Tests.Boards.{healthy, fails_after, board}

abbrev display : State
display = record {
  bus = valid;
  handle = 7;
  width = 128;
  height = 64;
  is_initialized = true;
  sys = board;
}

abbrev pub noise : Panel
noise = record { page = 5; column = 0; awaits = false; ram = λ p c. 0x55 }

abbrev pub beyond : ℕ → ℕ
beyond i = 0xEE

abbrev messages : List Message
messages = (1, codes "HB") ∷ (9, codes "X") ∷ (1, codes "A1") ∷ []

abbrev pub config : Config
config = record { bus = valid; i2c_addr = 0x3C; width = 128; height = 64 }

abbrev pub before : State
before = record display { handle = 0; width = 0; height = 0; is_initialized = false }

-- A panel that is off and awaits an argument of the addressing mode.
abbrev off : Power
off = record { open_command = 0x20; lit = false; pump = false; mode = 0 }

-- Every transfer of the messages fails.
started-IsLit_example :
    let P = fails_after 300 (err fail) in
    IsLit (
      powered P off
        (task_display (ssd1306_driver P beyond) messages (init_hw P valid config before).1))
unfolding init_hw send_cmds clear_hw clear_pages write_page address_page send_cmd send_bytes
    Transfers.write Transfers.transfer_with Transfers.transfer_locked Lifecycle.add_device
started-IsLit_example =
    started-IsLit (fails_after 300 (err fail)) off beyond valid config before messages refl

drawn :
    (shown healthy noise (task_display (ssd1306_driver healthy beyond) messages display)).ram 1 9
    ≡ 0x42
unfolding task_display show_text_hw write_page address_page send_cmd send_bytes Transfers.write
    Transfers.transfer_with Transfers.transfer_locked panel command fill glyphs font_8x8 font_index
drawn = refl

-- Only the command of page 3 fails.
abbrev loses_page : Platform
loses_page = record healthy { status = λ t c. status_of c }
  where
    status_of : Call → Err
    status_of (i2c (transfer (transmit h bytes))) =
        if eq_bytes bytes (0x00 ∷ 0xB3 ∷ []) then err fail else ok
    status_of c = ok

display-IsLost : IsLost loses_page 3 (1 ∷ 2 ∷ []) display
unfolding send_cmd send_bytes Transfers.write Transfers.transfer_with Transfers.transfer_locked
display-IsLost = record { lost = refl; low = refl; high = refl; bytes_sent = refl }

write_page-lost_example :
    let (r, s') = write_page loses_page 3 (1 ∷ 2 ∷ []) display in
    (r ≡ ok) × ((shown loses_page noise s').ram 5 1 ≡ overlay 5 0 (1 ∷ 2 ∷ []) noise.ram 5 1)
unfolding write_page address_page send_cmd send_bytes Transfers.write Transfers.transfer_with
    Transfers.transfer_locked panel
write_page-lost_example =
    write_page-lost loses_page 3 1 5 1 (2 ∷ []) noise display display-IsLost (omega arith) refl
