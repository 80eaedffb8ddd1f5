-- ===== src/Network.antt =====
-- firmware/main/network/network_manager.c and firmware/main/drivers/transport/transport_mqtt.c: the
-- WiFi and MQTT state, the events that change it, and what is published.
pub mod Manager
pub mod Board
pub mod Status
pub mod Commands
pub mod Reconnecting
pub mod Telemetry
pub mod Topics
pub mod Starting
pub mod Transport
pub mod Locks
