-- ===== src/Tests.antt =====
-- Concrete runs of the firmware, and each theorem at a concrete input.
mod Boards
mod BusTests
mod ExpanderTests
mod ConverterTests
mod OutputTests
mod ConfigTests
mod SensorTests
mod SupervisorTests
mod QueueTests
mod OtaTests
mod DisplayTests
mod NetworkTests
mod BoardTests
mod StartupTests
mod MockTests
mod TrafficTests
mod DriverTests
mod HealthTests
