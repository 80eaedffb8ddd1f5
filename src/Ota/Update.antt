-- ===== src/Ota/Update.antt =====
-- firmware/main/system/system_ota.c: the operations of the update. The OTA calls of ESP-IDF have a
-- trace and a platform of their own; the texts for the display are entries of the trace.
use fortunelabs_mainboard_l.Prelude.{
  ℕ, zero, suc, ◌*◌, ◌/◌, Bool, true, false, not, ◌&&◌, ◌||◌, List, ◌∷◌, ◌++◌, Option, none, some,
  if◌then◌else◌, ◌==◌,
}
use fortunelabs_mainboard_l.Prelude.Text.{codes, truncate}
use fortunelabs_mainboard_l.Platform.{
  Err, ok, err, fail, invalid_arg, ota_in_progress, is_ok, Pointer, is_null,
}
use fortunelabs_mainboard_l.Supervisor.Task.{decimal}

-- `esp_https_ota_begin` (timeout, skipped name check), `esp_https_ota_perform`,
-- `esp_https_ota_get_image_len_read`, `esp_https_ota_get_image_size`, `esp_https_ota_finish` of a
-- handle; a line for the display; `vTaskDelay`; `esp_restart`; the partition calls.
pub data OtaCall : Type 0 where
  begin_ota : ℕ → Bool → OtaCall
  perform image_len_read image_size finish : ℕ → OtaCall
  show : List ℕ → OtaCall
  wait_ms : ℕ → OtaCall
  restart : OtaCall
  running_partition state_partition partition_description mark_app_valid : OtaCall

abbrev pub Trace : Type 0
Trace = List OtaCall

-- The answers: an error, a number (a handle or a partition, 0 for NULL; a size, 0 if it is not
-- positive; 1 for the state ESP_OTA_IMG_PENDING_VERIFY), a text; whether the display's queue is
-- there.
pub record OtaPlatform : Type 0 where
  pub status : Trace → OtaCall → Err
  pub value : Trace → OtaCall → ℕ
  pub text : Trace → OtaCall → List ℕ
  pub has_display : Bool

-- `system_ota_config_t`, with `url != NULL`.
pub record Config : Type 0 where
  pub has_url : Bool
  pub timeout_ms : ℕ
  pub reboot_on_success : Bool
  pub skip_cert_check : Bool

abbrev pub default_timeout_ms : ℕ
default_timeout_ms = 5000

abbrev pub loop_delay_ms : ℕ
loop_delay_ms = 20

abbrev pub is_progress : Err → Bool
is_progress ok = false
is_progress (err ota_in_progress) = true
is_progress (err _) = false

-- `progress != last_progress`, where `none` is -1.
abbrev pub is_new : Option ℕ → ℕ → Bool
is_new none p = true
is_new (some q) p = not (q == p)

module _ (P : OtaPlatform) where
  open P use {status, value}

  -- `update_display_status`
  unfoldable pub update_display_status : List ℕ → Trace → Trace
  update_display_status line t = if P.has_display then show (truncate 33 line) ∷ t else t

  -- The report of the progress.
  unfoldable pub report : ℕ → Option ℕ → Trace → Option ℕ × Trace
  report h last t =
      let t1 : Trace = image_len_read h ∷ t in
      let t2 : Trace = image_size h ∷ t1 in
      let total = value t1 (image_size h) in
      let progress = value t (image_len_read h) * 100 / total in
      let line = truncate 17 (codes "OTA: Down " ++ decimal progress ++ codes "%") in
      if not (total == 0) && is_new last progress
      then (some progress, update_display_status line t2)
      else (last, t2)

  -- The download loop on fuel: `none` if it is still running.
  unfoldable pub download : ℕ → ℕ → Option ℕ → Trace → Option Err × Trace
  download zero h last t = (none, t)
  download (suc n) h last t =
      let t1 : Trace = perform h ∷ t in
      let (last1, t2) = report h last t1 in
      let rest = download n h last1 (wait_ms loop_delay_ms ∷ t2) in
      let r = status t (perform h) in if is_progress r then rest else (some r, t1)

  -- From the result of the download on.
  unfoldable pub evaluate : Config → ℕ → Err → Trace → Err × Trace
  evaluate cfg h (err c) t = (err c, finish h ∷ update_display_status (codes "OTA: Conn Lost") t)
  evaluate cfg h ok t =
      let t1 = update_display_status (codes "OTA: Verifying") t in
      let t2 : Trace = finish h ∷ t1 in
      let done = update_display_status (codes "OTA: Success!") t2 in
      elim (status t1 (finish h)) [
        | err c ↦ (err c, update_display_status (codes "OTA: Bad Image") t2)
        | ok ↦ (ok, if cfg.reboot_on_success then restart ∷ wait_ms 2000 ∷ done else done)
      ]

  -- The end of the update, if the download has ended.
  unfoldable pub conclude : Config → ℕ → Option Err → Trace → Option Err × Trace
  conclude cfg h none t = (none, t)
  conclude cfg h (some e) t = (some (evaluate cfg h e t).0, (evaluate cfg h e t).1)

  -- `system_ota_perform`, with fuel for its loop; a restart ends it.
  unfoldable pub ota_perform : ℕ → Pointer → Config → Trace → Option Err × Trace
  ota_perform fuel p cfg t =
      if is_null p || not cfg.has_url
      then (some (err invalid_arg), t)
      else (let c =
            begin_ota (if cfg.timeout_ms == 0 then default_timeout_ms else cfg.timeout_ms)
              cfg.skip_cert_check in
          let r = status t c in
          let h = value t c in
          let t1 : Trace = c ∷ t in
          let d = download fuel h none (update_display_status (codes "OTA: Connecting") t1) in
          if not (is_ok r) || h == 0
          then (some r, update_display_status (codes "OTA: Init Failed") t1)
          else conclude cfg h d.0 d.1)

  -- `system_ota_pending_verify`
  unfoldable pub pending_verify : Trace → Bool × Trace
  pending_verify t =
      let t1 : Trace = running_partition ∷ t in
      if value t running_partition == 0 then (false, t1) else (
        is_ok (status t1 state_partition) && value t1 state_partition == 1,
        state_partition ∷ t1,
      )

  -- `system_ota_mark_valid`
  unfoldable pub mark_valid : Trace → Err × Trace
  mark_valid t = (status t mark_app_valid, mark_app_valid ∷ t)

  -- `system_ota_get_running_version`: the string stored in the buffer, if one is.
  unfoldable pub get_running_version : Pointer → ℕ → Trace → Err × Option (List ℕ) × Trace
  get_running_version buf len t =
      let t1 : Trace = running_partition ∷ t in
      if is_null buf || len == 0
      then (err invalid_arg, none, t)
      else (if value t running_partition == 0
          then (err fail, none, t1)
          else (if is_ok (status t1 partition_description)
              then (
                ok,
                some (truncate len (P.text t1 partition_description)),
                partition_description ∷ t1,
              )
              else (err fail, none, partition_description ∷ t1)))
