-- ===== src/Tests/OtaTests.antt =====
-- The update on a concrete platform.
use fortunelabs_mainboard_l.Prelude.{◌+◌, ◌*◌, ◌≡◌, refl, true, false, [], if◌then◌else◌, ltb}
use fortunelabs_mainboard_l.Platform.{Err, ok, err, ota_in_progress, valid}
use fortunelabs_mainboard_l.Ota.Update.{
  OtaCall, perform, Trace, OtaPlatform, Config, ota_perform, download, report, evaluate, conclude,
  update_display_status,
}
use fortunelabs_mainboard_l.Ota.Session.{finishes, performs, is_open, ota_perform-finishes}

-- A download of two steps and the last one.
abbrev pub step_status : Trace → OtaCall → Err
step_status t (perform h) = if ltb (performs t) 2 then err ota_in_progress else ok
step_status t c = ok

abbrev pub server : OtaPlatform
server = record {
  status = step_status;
  value = λ t c. 100 * performs t + 1;
  text = λ t c. [];
  has_display = true;
}

abbrev settings : Config
settings = record {
  has_url = true;
  timeout_ms = 0;
  reboot_on_success = false;
  skip_cert_check = true;
}

ota_perform-finishes_example :
    finishes (ota_perform server 5 valid settings []).1
    ≡ 0 + (if is_open server valid settings [] then 1 else 0)
unfolding ota_perform download report evaluate conclude update_display_status
ota_perform-finishes_example = ota_perform-finishes server 5 valid settings [] refl
