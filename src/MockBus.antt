-- ===== src/MockBus.antt =====
-- firmware/test/mock_i2c_bus.c: the fake bus that the unit tests of the drivers link in place of
-- firmware/main/bus/i2c_bus.c.
pub mod State
pub mod Transfers
pub mod Runs
pub mod History
pub mod Registers
pub mod Chip
pub mod Faults
