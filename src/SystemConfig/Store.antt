-- ===== src/SystemConfig/Store.antt =====
-- firmware/main/system/system_config.c: the operations of the configuration store.
use fortunelabs_mainboard_l.Prelude.{
  ℕ, Bool, true, false, not, ◌||◌, List, [], ◌∷◌, ◌++◌, Option, none, some, if◌then◌else◌, ◌==◌,
  leb, length,
}
use fortunelabs_mainboard_l.Prelude.Text.{codes, is_empty, truncate, hex_byte}
use fortunelabs_mainboard_l.Platform.{
  Err, ok, err, no_mem, invalid_arg, invalid_state, nvs_not_found, is_ok, Pointer, is_null, Call,
  Trace, Platform, mutex, create, acquire, release, nvs, nvs_open, nvs_get_str, nvs_set_str,
  nvs_commit, nvs_erase_all, read_mac, byte_at,
}

abbrev pub ssid_len : ℕ
ssid_len = 33

abbrev pub pass_len : ℕ
pass_len = 64

abbrev pub uri_len : ℕ
uri_len = 128

abbrev pub id_len : ℕ
id_len = 32

abbrev pub key_wifi_ssid : List ℕ
key_wifi_ssid = codes "wifi_ssid"

abbrev pub key_wifi_pass : List ℕ
key_wifi_pass = codes "wifi_pass"

abbrev pub key_broker_uri : List ℕ
key_broker_uri = codes "broker_uri"

abbrev pub key_device_id : List ℕ
key_device_id = codes "device_id"

-- The compile-time defaults, which Kconfig gives.
pub record Defaults : Type 0 where
  pub wifi_ssid : List ℕ
  pub wifi_pass : List ℕ
  pub broker_uri : List ℕ

-- `system_config_t`, each buffer up to its NUL.
pub record SystemConfig : Type 0 where
  pub wifi_ssid : List ℕ
  pub wifi_pass : List ℕ
  pub broker_uri : List ℕ
  pub device_id : List ℕ

-- The static variables of the file, and the calls made so far.
pub record State : Type 0 where
  pub handle : ℕ
  pub initialized : Bool
  pub lock : ℕ
  pub trace : Trace

abbrev pub log_call : Call → State → State
log_call c s = record s { trace = c ∷ s.trace }

-- `def ? def : ""`
abbrev pub text_or_empty : Option (List ℕ) → List ℕ
text_or_empty none = []
text_or_empty (some s) = s

-- `strlen(s) >= n`, where a NULL string fails the test too if `strict`.
abbrev pub too_long : Bool → ℕ → Option (List ℕ) → Bool
too_long strict n none = strict
too_long strict n (some s) = leb n (length s)

module _ (P : Platform) where
  open P use {status, value, reply}

  -- The string that `load_str` leaves in its buffer, and its error.
  unfoldable pub loaded : Err → List ℕ → List ℕ → Err × List ℕ
  loaded ok text def = (ok, text)
  loaded (err nvs_not_found) text def = (ok, def)
  loaded (err c) text def = (err c, def)

  -- `load_str`
  unfoldable pub load_str : List ℕ → Option (List ℕ) → ℕ → State → Err × List ℕ × State
  unfolding loaded
  load_str key def size s =
      let c : Call = nvs (nvs_get_str s.handle key size) in
      let (r, text) =
        loaded (status s.trace c) (reply s.trace c) (truncate size (text_or_empty def)) in
      (r, text, log_call c s)

  -- `derive_device_id`
  unfoldable pub derive_device_id : ℕ → State → List ℕ × State
  derive_device_id size s =
      let mac = reply s.trace read_mac in
      let hex = λ (i : ℕ). hex_byte (byte_at mac i) in
      (
        truncate size
            (codes "flab-" ++ (hex 0 ++ (hex 1 ++ (hex 2 ++ (hex 3 ++ (hex 4 ++ hex 5)))))),
        log_call read_mac s,
      )

  -- The id that was loaded, or one derived from the MAC address if that is empty.
  unfoldable pub id_or_derived : List ℕ → ℕ → State → List ℕ × State
  id_or_derived text size s = if is_empty text then derive_device_id size s else (text, s)

  -- `system_config_init`
  unfoldable pub init : State → Err × State
  init s =
      let m = value s.trace (mutex create) in
      let made = record s { lock = m; trace = mutex create ∷ s.trace } in
      let s1 = if s.lock == 0 then made else s in
      if s1.lock == 0
      then (err no_mem, s1)
      else (let c : Call = nvs nvs_open in
          let s2 = record s1 { handle = value s1.trace c; trace = c ∷ s1.trace } in
          elim (status s1.trace c) [
            | err e ↦ (err e, s2)
            | ok ↦ (ok, record s2 { initialized = true })
          ])

  -- The four strings that `system_config_load` reads with the mutex held; its `memset` and its
  -- errors of `load_str` leave nothing behind.
  unfoldable pub read_strings : Defaults → State → SystemConfig × State
  read_strings defaults s0 =
      let (r1, ssid, s1) = load_str key_wifi_ssid (some defaults.wifi_ssid) ssid_len s0 in
      let (r2, pass, s2) = load_str key_wifi_pass (some defaults.wifi_pass) pass_len s1 in
      let (r3, uri, s3) = load_str key_broker_uri (some defaults.broker_uri) uri_len s2 in
      let (r4, text, s4) = load_str key_device_id (some []) id_len s3 in
      let (id, s5) = id_or_derived text id_len s4 in
      (record { wifi_ssid = ssid; wifi_pass = pass; broker_uri = uri; device_id = id }, s5)

  -- `system_config_load`
  unfoldable pub load : Defaults → Pointer → SystemConfig → State → Err × SystemConfig × State
  load defaults out old s =
      if is_null out
      then (err invalid_arg, old, s)
      else (if not s.initialized
          then (err invalid_state, old, s)
          else (let (cfg, s') = read_strings defaults (log_call (mutex (acquire s.lock)) s) in
              (ok, cfg, log_call (mutex (release s'.lock)) s')))

  -- A call whose error is returned, with the mutex given back: the rest runs only after ESP_OK.
  unfoldable pub then_call : Call → (State → Err × State) → State → Err × State
  then_call c k s =
      let s' = log_call c s in
      elim (status s.trace c) [ err e ↦ (err e, log_call (mutex (release s.lock)) s') | ok ↦ k s' ]

  -- The last call, `nvs_commit`, after which the mutex is given back in any case.
  unfoldable pub commit : State → Err × State
  commit s =
      let c : Call = nvs (nvs_commit s.handle) in
      (status s.trace c, log_call (mutex (release s.lock)) (log_call c s))

  -- `system_config_set_wifi`; NULL is `none`.
  unfoldable pub set_wifi : Option (List ℕ) → Option (List ℕ) → State → Err × State
  set_wifi ssid pass s =
      if not s.initialized
      then (err invalid_state, s)
      else (if too_long true ssid_len ssid || too_long false pass_len pass
          then (err invalid_arg, s)
          else then_call (nvs (nvs_set_str s.handle key_wifi_ssid (text_or_empty ssid)))
              (then_call (nvs (nvs_set_str s.handle key_wifi_pass (text_or_empty pass))) commit)
              (log_call (mutex (acquire s.lock)) s))

  -- `system_config_set_broker`
  unfoldable pub set_broker : Option (List ℕ) → State → Err × State
  set_broker uri s =
      if not s.initialized
      then (err invalid_state, s)
      else (if too_long true uri_len uri
          then (err invalid_arg, s)
          else then_call (nvs (nvs_set_str s.handle key_broker_uri (text_or_empty uri))) commit
              (log_call (mutex (acquire s.lock)) s))

  -- `system_config_get_device_id`: the string stored in the buffer, if one is.
  unfoldable pub get_device_id : Pointer → ℕ → State → Err × Option (List ℕ) × State
  get_device_id buf len s =
      if is_null buf || len == 0
      then (err invalid_arg, none, s)
      else (if not s.initialized
          then (err invalid_state, none, s)
          else (let (r, text, s1) =
                load_str key_device_id (some []) len (log_call (mutex (acquire s.lock)) s) in
              let (id, s2) = if is_ok r then id_or_derived text len s1 else (text, s1) in
              (r, some id, log_call (mutex (release s2.lock)) s2)))

  -- `system_config_reset`
  unfoldable pub reset : State → Err × State
  reset s =
      if not s.initialized
      then (err invalid_state, s)
      else then_call (nvs (nvs_erase_all s.handle)) commit (log_call (mutex (acquire s.lock)) s)
