-- ===== src/Ota.antt =====
-- firmware/main/system/system_ota.c: the firmware update.
pub mod Update
pub mod Session
