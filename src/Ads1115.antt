-- ===== src/Ads1115.antt =====
-- firmware/main/drivers/ic/ads1115.c and ads1115.h: the analog-to-digital converter.
pub mod Words
pub mod Device
pub mod Conversion
