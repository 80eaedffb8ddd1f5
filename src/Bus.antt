-- ===== src/Bus.antt =====
-- firmware/main/bus/i2c_bus.c: the shared I2C bus.
pub mod State
pub mod Lifecycle
pub mod Recovery
pub mod Transfers
pub mod Scan
pub mod Traces
pub mod Quiet
pub mod Delivery
pub mod Locking
pub mod Registry
pub mod Faults
pub mod Recovered
