-- ===== src/LogService.antt =====
-- firmware/main/system/system_log.c: the log facade and its forwarder.
pub mod Facade
pub mod Serial
pub mod Session
pub mod Forwarding
