-- ===== src/Lib.antt =====
-- The firmware of the FortuneLabs mainboard (firmware/main), an ESP32 application over ESP-IDF and
-- FreeRTOS.
--
-- The parts and their files:
-- - Platform: what the firmware uses of ESP-IDF and FreeRTOS. Their code is not in the repository:
--   a call is an entry of a trace, newest first, and its answers come from a `Platform`, which
--   every definition takes as a parameter. An answer is a function of the trace, so that nothing
--   is assumed of the hardware but what a theorem names as a hypothesis.
-- - Bus: firmware/main/bus/i2c_bus.c. Bus.State holds `i2c_bus_t` and the registry; Bus.Lifecycle
--   `i2c_bus_init`, `i2c_bus_deinit`, `i2c_bus_add_device`; Bus.Recovery
--   `_i2c_bus_recover_locked`; Bus.Transfers `i2c_bus_write`, `i2c_bus_read`,
--   `i2c_bus_write_read`; Bus.Scan `i2c_bus_scan`. The proofs are in Bus.Traces (what a trace
--   shows), Bus.Quiet (the steps of a recovery), Bus.Delivery, Bus.Locking, Bus.Recovered,
--   Bus.Registry and Bus.Faults.
-- - Mcp23017: firmware/main/drivers/ic/mcp23017.c, over the bus. Device holds the driver and the
--   port operations, Pins the pin operations; Latches reads the chip's registers off the trace of
--   acknowledged transfers; Sync, Init, Ports, PinLaws and Guards hold the proofs.
-- - Ads1115: firmware/main/drivers/ic/ads1115.c, over the bus: Words (the registers' bits), Device
--   (the driver), Conversion (the proofs).
-- - SensorAds1115: firmware/main/drivers/sensor/sensor_ads1115.c, over Ads1115. Its floating-point
--   numbers are a type parameter, with the operations that the code uses as parameters.
-- - Outputs: firmware/main/hal/output_driver.h as a record of operations and laws (Contract), the
--   two drivers that fill it, firmware/main/drivers/output/status_led.c and
--   firmware/main/drivers/output/actuator_dummy.c (StatusLed, ActuatorDummy, Laws), and
--   firmware/main/tasks/task_actuator.c over any such driver (ActuatorTask).
-- - SystemConfig: firmware/main/system/system_config.c: Store (the operations), Nvs (the NVS
--   partition as the trace shows it, and what is relied on of `nvs_get_str`), Loading and Locks
--   (the proofs).
-- - Supervisor: firmware/main/system/system_supervisor.c: Task (the operations and the task),
--   Cadence and Heartbeats (the proofs).
-- - Queues: what the firmware uses of the queues of FreeRTOS, as a record of operations and of
--   documented behaviour, which LogService and SensorTask take as a parameter.
-- - LogService: firmware/main/system/system_log.c: Facade (the operations); Serial (the UART),
--   Forwarding (the way to the sink) and Session (runs from the start on) hold the proofs.
-- - SensorTask: firmware/main/tasks/task_sensor.c and `app_transport_command` of
--   firmware/main/main.c, the two senders to the actuator's queue: Sampling (the operations),
--   Edges (the proofs). Readings are a type parameter. Drivers is firmware/main/hal/sensor_driver.h
--   as a record of operations and of laws, with the two drivers that fill it; Rounds is the loop of
--   the task over any such driver.
-- - Ota: firmware/main/system/system_ota.c: Update (the operations, with the OTA calls of ESP-IDF
--   as a trace and a platform of their own), Session (the proofs). The certificate is data that
--   the model leaves out.
-- - Ssd1306: firmware/main/drivers/ic/ssd1306.c, over the bus: Font (the font and the glyphs of a
--   text), Device (the operations); Panel is the memory of the panel as the acknowledged transfers
--   fill it, by the page addressing mode of the data sheet, and Power its display, charge pump and
--   addressing mode; Rows, Texts, Shown, Ready, Starting and Faults hold the proofs; Task is
--   firmware/main/hal/display_driver.h and
--   firmware/main/tasks/task_display.c over any such driver.
-- - Network: firmware/main/network/network_manager.c: Manager (the operations and the two event
--   handlers), Board (the telemetry task and the runs of events and calls); Status, Reconnecting,
--   Telemetry, Locks, Topics and Starting hold the proofs. Transport is
--   firmware/main/drivers/transport/transport_mqtt.c and firmware/main/hal/transport_driver.h;
--   Commands joins the manager with `app_transport_command` and the actuator's queue.
-- - SensorDummy: firmware/main/drivers/sensor/sensor_dummy.c, its floating-point numbers a
--   parameter.
-- - App: firmware/main/main.c and firmware/main/tasks/task_status.c: Startup (`app_main` from its
--   first step to its last), with Hardware (its steps from the bus to the last driver) and Boot
--   (the fallback profile, the configuration on its way to the network, `app_log_sink`); BringUp,
--   Serving, Running, Spawned and Created hold the proofs about them; Traffic is the system of the
--   tasks around the two queues of commands and of texts, Accounts and Deliveries are what is proved of
--   it; RemoteLog (the log service with that sink), Health (the supervisor with
--   `network_manager_publish_health`), OtaTrigger (`ota_test_task`), Heartbeat
--   (`task_status`).
-- - MockBus: firmware/test/mock_i2c_bus.c, the fake bus that the unit tests link in place of
--   firmware/main/bus/i2c_bus.c: State (its state and the control calls), Transfers (the functions
--   of the bus); Runs, History, Registers, Chip (against the chip of Mcp23017.Latches) and Faults
--   hold the proofs.
-- - Tests: platforms and states for the tests, and runs on them.
--
-- The drivers call the bus by its functions, as in the source, and carry its state and its trace
-- in theirs. NULL is `null`, a handle 0 or `none`, by what the code compares. Machine integers are
-- native numbers; the wrap-around of error counters, indices and times is written out. Loops: the
-- recovery has a budget of 9 pulses, the retry of 1 attempt, the scan 0x75 addresses, and the loop
-- over the registry its device count, the bounds of the source. `log_vprintf` calls the writer
-- that was installed before it: it runs on fuel, and one call is enough after one start of the log
-- service. The loop of the download has no bound in the source: it runs on fuel, and Ota.Session
-- shows which fuel is enough. The wait for the network has 60 rounds, so that a fuel of 61 is
-- enough. The tasks that never return are modelled by the commands that they receive or by a
-- number of rounds. A run of the network manager is a list of actions, its events and the calls of
-- other tasks; a round of the telemetry task is two actions, since the mutex is given back between
-- them. A run of App.Traffic is a list of steps, in any order, each a round of one task.
-- `ESP_ERROR_CHECK` of a failed call ends a start as `aborted`; what `xTaskCreate` answers in
-- `app_main` is a parameter.
--
-- Not modelled: log output and the labels that are only printed; NULL data buffers of a transfer,
-- which the driver of ESP-IDF checks; the interleaving of tasks, except in the network manager, in
-- App.Traffic and where the trace shows that a mutex is held; the delivery of messages by the MQTT
-- client and the broker; the wrap-around of the tick count; an image size that overflows `int`; a
-- width at which a row overflows its buffer; the unit tests; firmware/components/ssd1306, a copy of
-- another project.
pub mod Prelude
pub mod Platform
pub mod Bus
pub mod Mcp23017
pub mod Ads1115
pub mod SystemConfig
pub mod Outputs
pub mod SensorAds1115
pub mod Supervisor
pub mod Queues
pub mod LogService
pub mod SensorTask
pub mod Ota
pub mod Ssd1306
pub mod Network
pub mod SensorDummy
pub mod App
pub mod MockBus
mod Tests
