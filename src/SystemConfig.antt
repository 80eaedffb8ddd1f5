-- ===== src/SystemConfig.antt =====
-- firmware/main/system/system_config.c and system_config.h: the configuration store.
pub mod Store
pub mod Nvs
pub mod Loading
pub mod Locks
