-- ===== src/SensorTask.antt =====
-- firmware/main/tasks/task_sensor.c, and the command handler of firmware/main/main.c: the two
-- sources of the actuator's commands.
pub mod Sampling
pub mod Edges
pub mod Drivers
pub mod Rounds
