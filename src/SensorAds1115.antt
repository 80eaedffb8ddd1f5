-- ===== src/SensorAds1115.antt =====
-- firmware/main/drivers/sensor/sensor_ads1115.c: the sensor contract over the converter.
pub mod Adapter
pub mod Laws
