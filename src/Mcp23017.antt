-- ===== src/Mcp23017.antt =====
-- firmware/main/drivers/ic/mcp23017.c and mcp23017.h: the GPIO expander.
pub mod Device
pub mod Pins
pub mod Latches
pub mod Sync
pub mod Init
pub mod Ports
pub mod PinLaws
pub mod Guards
