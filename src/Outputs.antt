-- ===== src/Outputs.antt =====
-- firmware/main/drivers/output: the drivers of the output contract, and its client
-- firmware/main/tasks/task_actuator.c.
pub mod Contract
pub mod StatusLed
pub mod ActuatorDummy
pub mod Laws
pub mod ActuatorTask
