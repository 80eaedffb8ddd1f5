-- ===== src/Supervisor.antt =====
-- firmware/main/system/system_supervisor.c and system_supervisor.h: watchdog and heartbeat.
pub mod Task
pub mod Cadence
pub mod Heartbeats
