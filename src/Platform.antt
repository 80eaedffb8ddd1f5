-- ===== src/Platform.antt =====
-- What the firmware uses of ESP-IDF and FreeRTOS, whose code is not in the repository: the calls
-- that it makes, the trace of them, and the answers, which a `Platform` gives. A platform answers
-- each call as any function of the calls made before it, so a theorem over every platform is a
-- theorem over every behaviour of the hardware and of the libraries.
use fortunelabs_mainboard_l.Prelude.{
  ℕ, List, Bool, true, false, ◌≡◌, refl, ◌⊎◌, inl, inr, get_or, ◌%◌,
}

-- The error codes that the firmware names, and any other.
pub data Code : Type 0 where
  fail no_mem invalid_arg invalid_state timeout nvs_not_found ota_in_progress : Code
  nvs_no_free_pages nvs_new_version_found : Code
  other : ℕ → Code

-- `esp_err_t`: ESP_OK or a code.
pub data Err : Type 0 where
  ok : Err
  err : Code → Err

abbrev pub is_ok : Err → Bool
is_ok ok = true
is_ok (err c) = false

abbrev pub is_timeout : Err → Bool
is_timeout ok = false
is_timeout (err timeout) = true
is_timeout (err _) = false

-- A pointer argument that the code only compares with NULL.
pub data Pointer : Type 0 where
  null valid : Pointer

abbrev pub is_null : Pointer → Bool
is_null null = true
is_null valid = false

-- `xSemaphoreCreateMutex`, `vSemaphoreDelete`, `xSemaphoreTake`, `xSemaphoreGive`, by handle.
pub data MutexCall : Type 0 where
  create : MutexCall
  delete acquire release : ℕ → MutexCall

-- `i2c_master_transmit`, `i2c_master_receive`, `i2c_master_transmit_receive`: the device handle,
-- the bytes sent and the number of bytes wanted.
pub data Transfer : Type 0 where
  transmit : ℕ → List ℕ → Transfer
  receive : ℕ → ℕ → Transfer
  transmit_receive : ℕ → List ℕ → ℕ → Transfer

-- The rest of the I2C master API, by bus handle.
pub data I2cCall : Type 0 where
  -- port, SDA pin, SCL pin
  new_master_bus : ℕ → ℕ → ℕ → I2cCall
  del_master_bus : ℕ → I2cCall
  -- bus, 7-bit address, SCL speed in Hz
  bus_add_device : ℕ → ℕ → ℕ → I2cCall
  probe : ℕ → ℕ → I2cCall
  transfer : Transfer → I2cCall

-- `gpio_config` (of a pin mask), `gpio_set_level`, `gpio_get_level`, `gpio_reset_pin`.
pub data GpioCall : Type 0 where
  config : ℕ → GpioCall
  set_level : ℕ → ℕ → GpioCall
  get_level reset_pin : ℕ → GpioCall

-- `esp_task_wdt_init` and `esp_task_wdt_reconfigure` (timeout, panic), `esp_task_wdt_add`,
-- `esp_task_wdt_reset`, `esp_task_wdt_delete` (for the calling task).
pub data WatchdogCall : Type 0 where
  start reconfigure : ℕ → Bool → WatchdogCall
  add reset remove : WatchdogCall

-- `nvs_open` (read and write), `nvs_get_str` (key, buffer size), `nvs_set_str` (key, string),
-- `nvs_commit`, `nvs_erase_all`, by handle.
pub data NvsCall : Type 0 where
  nvs_open : NvsCall
  nvs_get_str : ℕ → List ℕ → ℕ → NvsCall
  nvs_set_str : ℕ → List ℕ → List ℕ → NvsCall
  nvs_commit nvs_erase_all : ℕ → NvsCall

-- What the network manager calls of the TCP/IP stack, the WiFi driver, the MQTT client and FreeRTOS:
-- `esp_netif_init`, `esp_event_loop_create_default`, `esp_netif_create_default_wifi_sta`,
-- `esp_wifi_init`, `esp_event_handler_instance_register` (of all WiFi events, of the IP event),
-- `esp_wifi_set_mode`, `esp_wifi_set_config` (SSID and password), `esp_wifi_start`,
-- `esp_wifi_connect`; `esp_mqtt_client_init` (broker URI, topic of the last will), and by client
-- handle `esp_mqtt_client_register_event`, `esp_mqtt_client_start`, `esp_mqtt_client_publish` (topic
-- and payload), `esp_mqtt_client_subscribe` (topic); `xTaskCreate` of the telemetry task.
pub data NetCall : Type 0 where
  netif_init event_loop_create netif_create_sta wifi_init register_wifi register_ip : NetCall
  wifi_set_mode : NetCall
  wifi_set_config : List ℕ → List ℕ → NetCall
  wifi_start wifi_connect : NetCall
  client_init : List ℕ → List ℕ → NetCall
  client_register client_start : ℕ → NetCall
  client_publish : ℕ → List ℕ → List ℕ → NetCall
  client_subscribe : ℕ → List ℕ → NetCall
  create_telemetry_task : NetCall

pub data Call : Type 0 where
  mutex : MutexCall → Call
  i2c : I2cCall → Call
  gpio : GpioCall → Call
  watchdog : WatchdogCall → Call
  nvs : NvsCall → Call
  net : NetCall → Call
  -- `nvs_flash_init`, `nvs_flash_erase`
  flash_init flash_erase : Call
  -- `esp_rom_delay_us`, `vTaskDelay`
  delay_us delay_ticks : ℕ → Call
  -- `esp_timer_get_time`, `esp_read_mac` of the WiFi station, `esp_get_free_heap_size`,
  -- `esp_get_minimum_free_heap_size`
  timer_us read_mac free_heap min_free_heap : Call
  -- the heartbeat callback, with what it publishes
  publish : List ℕ → Call

-- The calls made so far, the newest first.
abbrev pub Trace : Type 0
Trace = List Call

-- The answer to a call made after a trace: its `esp_err_t`, the number that it returns or leaves
-- through an out-pointer (a handle, 0 for NULL; a pin's level; pdTRUE or pdFALSE), and the bytes
-- that it stores in a buffer. A message id of the MQTT client that is not negative, and pdPASS, count
-- as ESP_OK. `ticks` is the macro `pdMS_TO_TICKS`, and `valid_output` the macro
-- `GPIO_IS_VALID_OUTPUT_GPIO`.
pub record Platform : Type 0 where
  pub status : Trace → Call → Err
  pub value : Trace → Call → ℕ
  pub reply : Trace → Call → List ℕ
  pub ticks : ℕ → ℕ
  pub valid_output : ℕ → Bool

-- The byte at an index of a buffer of `uint8_t` that was zero before.
abbrev pub byte_at : List ℕ → ℕ → ℕ
byte_at buf i = get_or buf i 0 % 256

-- To split on a computed error and keep the equation.
pub Err-cases : (e : Err) → (e ≡ ok) ⊎ ((c : Code) × (e ≡ err c))
Err-cases ok = inl refl
Err-cases (err c) = inr (c, refl)
