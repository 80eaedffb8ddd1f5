-- ===== src/Tests/ExpanderTests.antt =====
-- The expander on concrete inputs.
use fortunelabs_mainboard_l.Prelude.{refl, true, false, List, [], ◌∷◌, arith}
use fortunelabs_mainboard_l.Platform.{err, fail, valid, Platform}
use fortunelabs_mainboard_l.Bus.Transfers
use fortunelabs_mainboard_l.Bus.Lifecycle
use fortunelabs_mainboard_l.Mcp23017.Device.{
  init_registers, Config, write_reg, init, set_port_direction, write_port, set_port_pullup,
  set_port_polarity,
}
use fortunelabs_mainboard_l.Mcp23017.Pins.{
  update_dir, set_pin_direction, write_pin, toggle_pin, update_olat,
}
use fortunelabs_mainboard_l.Mcp23017.Latches.{latch}
use fortunelabs_mainboard_l.Mcp23017.Sync.{IsSynced}
use fortunelabs_mainboard_l.Mcp23017.Init.{IsStarted, init-IsStarted}
use fortunelabs_mainboard_l.Mcp23017.Ports.{ports-IsSynced}
use fortunelabs_mainboard_l.Mcp23017.PinLaws.{IsAccepted}
use fortunelabs_mainboard_l.Mcp23017.Guards.{PinCall, direct, put, flip, calls, pins-IsSynced}
use fortunelabs_mainboard_l.Tests.Boards.{healthy, fails_after, expander}

pub expander-IsSynced : IsSynced healthy expander
unfolding latch
expander-IsSynced = record {
  dir_a = λ _. refl;
  dir_b = λ _. refl;
  olat_a = λ _. refl;
  olat_b = λ _. refl;
}

abbrev config : Config
config = record {
  bus = valid;
  address = 0x20;
  scl_hz = 100000;
  dir_a = 0xF0;
  dir_b = 0xFF;
  pullup_a = 0;
  pullup_b = 1;
}

init-IsStarted_example :
    IsStarted healthy config expander (init healthy valid valid config expander).1
unfolding init init_registers write_reg Transfers.write Transfers.transfer_with
    Transfers.transfer_locked Lifecycle.add_device
init-IsStarted_example = init-IsStarted healthy valid valid config expander refl

ports-IsSynced_example :
    IsSynced healthy (set_port_direction healthy valid 0 7 expander).1
    × IsSynced healthy (write_port healthy valid 0 7 expander).1
    × IsSynced healthy (set_port_pullup healthy valid 0 7 expander).1
    × IsSynced healthy (set_port_polarity healthy valid 0 7 expander).1
ports-IsSynced_example = ports-IsSynced healthy valid 0 7 expander expander-IsSynced

accepted : IsAccepted healthy 0 3 expander
accepted = record { ready = refl; port_ok = refl; pin_ok = omega arith }

abbrev pin_calls : List PinCall
pin_calls = direct 0 3 1 ∷ put 0 3 true ∷ flip 1 7 ∷ put 0 3 false ∷ []

pins-IsSynced_example : IsSynced healthy (calls healthy valid pin_calls expander)
unfolding set_pin_direction write_pin toggle_pin update_dir update_olat write_reg Transfers.write
    Transfers.transfer_with Transfers.transfer_locked
pins-IsSynced_example = pins-IsSynced healthy valid pin_calls expander expander-IsSynced refl

abbrev breaks : Platform
breaks = fails_after 4 (err fail)

breaks-IsSynced : IsSynced breaks expander
unfolding latch
breaks-IsSynced = record {
  dir_a = λ _. refl;
  dir_b = λ _. refl;
  olat_a = λ _. refl;
  olat_b = λ _. refl;
}
