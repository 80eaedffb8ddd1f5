-- ===== src/App.antt =====
-- firmware/main/main.c: what the orchestration does around the components.
pub mod Boot
pub mod Hardware
pub mod BringUp
pub mod RemoteLog
pub mod Health
pub mod OtaTrigger
pub mod Heartbeat
pub mod Startup
pub mod Spawned
pub mod Created
pub mod Serving
pub mod Running
pub mod Traffic
pub mod Accounts
pub mod Deliveries
