-- ===== src/Tests/ConfigTests.antt =====
-- The configuration store on concrete inputs.
use fortunelabs_mainboard_l.Prelude.{
  ℕ, ◌≡◌, ◌<◌, refl, true, List, [], ◌∷◌, none, some, if◌then◌else◌, ltb, length, arith,
}
use fortunelabs_mainboard_l.Prelude.Text.{codes}
use fortunelabs_mainboard_l.Platform.{
  Err, ok, err, nvs_not_found, Call, Trace, Platform, nvs, NvsCall, nvs_get_str, valid, nvs_set_str,
  nvs_erase_all, nvs_commit, nvs_open, mutex, i2c, gpio, watchdog, delay_us, delay_ticks, timer_us,
  flash_init, flash_erase, read_mac, free_heap, min_free_heap, publish, net,
}
use fortunelabs_mainboard_l.SystemConfig.Store.{
  State, Defaults, SystemConfig, set_wifi, commit, then_call, load,
}
use fortunelabs_mainboard_l.SystemConfig.Nvs.{
  Entry, untouched, erased, holds, stored, NvsLaws, stored_call,
}
use fortunelabs_mainboard_l.SystemConfig.Loading.{IsWellFormed, load-IsWellFormed, load-set_wifi}
use fortunelabs_mainboard_l.Tests.Boards.{healthy}

-- An NVS partition where every write succeeds: what a read of an entry gives.
abbrev status_of : ℕ → Entry → Err
status_of size (holds v) = if ltb (length v) size then ok else err nvs_not_found
status_of size e = err nvs_not_found

abbrev text_of : Entry → List ℕ
text_of (holds v) = v
text_of e = []

abbrev nvs_status : Trace → NvsCall → Err
nvs_status t (nvs_get_str h key size) = status_of size (stored healthy key t)
nvs_status t c = ok

abbrev nvs_reply : Trace → NvsCall → List ℕ
nvs_reply t (nvs_get_str h key size) = text_of (stored healthy key t)
nvs_reply t c = []

abbrev call_status : Trace → Call → Err
call_status t (nvs c) = nvs_status t c
call_status t c = ok

abbrev call_reply : Trace → Call → List ℕ
call_reply t (nvs c) = nvs_reply t c
call_reply t c = 1 ∷ 2 ∷ 3 ∷ 4 ∷ 5 ∷ 6 ∷ []

abbrev pub partition : Platform
partition = record healthy { status = call_status; reply = call_reply }

stored_call_same :
    (key : List ℕ) (t : Trace) (c : Call) (a b : Entry)
    → a ≡ b
    → stored_call partition key t c a ≡ stored_call healthy key t c b
stored_call_same key t (nvs (nvs_set_str h k v)) a b e = rw e
stored_call_same key t (nvs (nvs_erase_all h)) a b e = refl
stored_call_same key t (nvs (nvs_get_str h k n)) a b e = e
stored_call_same key t (nvs (nvs_commit h)) a b e = e
stored_call_same key t (nvs nvs_open) a b e = e
stored_call_same key t (mutex m) a b e = e
stored_call_same key t (i2c m) a b e = e
stored_call_same key t (gpio m) a b e = e
stored_call_same key t (watchdog m) a b e = e
stored_call_same key t (net m) a b e = e
stored_call_same key t (delay_us n) a b e = e
stored_call_same key t (delay_ticks n) a b e = e
stored_call_same key t timer_us a b e = e
stored_call_same key t flash_init a b e = e
stored_call_same key t flash_erase a b e = refl
stored_call_same key t read_mac a b e = e
stored_call_same key t free_heap a b e = e
stored_call_same key t min_free_heap a b e = e
stored_call_same key t (publish m) a b e = e

stored_same : (key : List ℕ) (t : Trace) → stored partition key t ≡ stored healthy key t
stored_same key [] = refl
stored_same key (c ∷ t) =
    stored_call_same key t c (stored partition key t) (stored healthy key t) (stored_same key t)

status_of-ok : (size : ℕ) (e : Entry) → status_of size e ≡ ok → length (text_of e) < size
status_of-ok size (holds v) h = ground (arith, h)
status_of-ok size untouched h = absurd (cc h)
status_of-ok size erased h = absurd (cc h)

pub partition-NvsLaws : NvsLaws partition
partition-NvsLaws = record {
  get_written = λ t h size key v e f.
      (rw (← stored_same key t, e) (ground (arith, f)), rw (← stored_same key t, e));
  get_erased = λ t h size key e. rw (← stored_same key t, e);
  get_fits = λ t h size key e. status_of-ok size (stored healthy key t) e;
}

abbrev pub ready : State
ready = record { handle = 1; initialized = true; lock = 3; trace = [] }

abbrev pub defaults : Defaults
defaults = record { wifi_ssid = codes "lab"; wifi_pass = []; broker_uri = codes "mqtt://broker" }

abbrev pub empty : SystemConfig
empty = record { wifi_ssid = []; wifi_pass = []; broker_uri = []; device_id = [] }

load-IsWellFormed_example :
    let (r, cfg, s') = load partition defaults valid empty ready in (r ≡ ok) × IsWellFormed cfg
load-IsWellFormed_example = load-IsWellFormed partition partition-NvsLaws defaults empty ready refl

load-set_wifi_example :
    let s1 = (set_wifi partition (some (codes "home")) none ready).1 in
    let (r, cfg, s') = load partition defaults valid empty s1 in
    (r ≡ ok) × (cfg.wifi_ssid ≡ codes "home") × (cfg.wifi_pass ≡ [])
unfolding set_wifi then_call commit
load-set_wifi_example =
    load-set_wifi partition partition-NvsLaws defaults empty (some (codes "home")) none ready refl
