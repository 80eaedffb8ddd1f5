-- ===== src/Ssd1306.antt =====
-- firmware/main/drivers/ic/ssd1306.c: the display driver of the mainboard, and
-- firmware/main/tasks/task_display.c, the task that draws through it.
pub mod Font
pub mod Device
pub mod Panel
pub mod Rows
pub mod Texts
pub mod Shown
pub mod Ready
pub mod Starting
pub mod Faults
pub mod Task
pub mod Power
