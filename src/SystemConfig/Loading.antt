-- ===== src/SystemConfig/Loading.antt =====
-- A load of the configuration (firmware/main/system/system_config.c) after other operations.
use fortunelabs_mainboard_l.Prelude.{
  ℕ, ◌<◌, ◌≡◌, refl, true, List, [], ◌∷◌, Option, some, subst, sym, ap, ◌∙◌, arith, length,
}
use fortunelabs_mainboard_l.Prelude.Text.{truncate, length-truncate}
use fortunelabs_mainboard_l.Platform.{
  Code, Err, ok, err, valid, Call, Platform, mutex, acquire, nvs, nvs_get_str,
}
use fortunelabs_mainboard_l.SystemConfig.Store.{
  State, Defaults, SystemConfig, log_call, read_strings, set_wifi, reset, load, loaded, load_str,
  id_or_derived, derive_device_id, ssid_len, pass_len, uri_len, id_len, key_wifi_ssid,
  key_wifi_pass, key_broker_uri, key_device_id, text_or_empty,
}
use fortunelabs_mainboard_l.SystemConfig.Nvs.{
  erased, holds, stored, NvsLaws, IsProvisioned, set_wifi-IsProvisioned, reset-erased,
}

-- What fits the buffers of a `system_config_t`, each with its NUL; the device id is not empty.
pub record IsWellFormed (cfg : SystemConfig) : Type 0 where
  pub ssid : length cfg.wifi_ssid < ssid_len
  pub pass : length cfg.wifi_pass < pass_len
  pub uri : length cfg.broker_uri < uri_len
  pub id : length cfg.device_id < id_len
  pub named : 0 < length cfg.device_id

module _ (P : Platform) where
  loaded-err : (c : Code) (text def : List ℕ) → (loaded P (err c) text def).1 ≡ def
  unfolding loaded
  loaded-err c text def = ground arith

  derived-length : (s : State) → length (derive_device_id P id_len s).0 ≡ 17
  unfolding derive_device_id
  derived-length s = refl

  id_or_derived-filled :
      (text : List ℕ) (s : State)
      → length text < id_len
      → (0 < length (id_or_derived P text id_len s).0)
        × (length (id_or_derived P text id_len s).0 < id_len)
  unfolding id_or_derived
  id_or_derived-filled [] s h = omega (arith, derived-length s)
  id_or_derived-filled (c ∷ text) s h = omega arith

module _ (P : Platform) (laws : NvsLaws P) where
  load_str-fits :
      (key : List ℕ) (def : Option (List ℕ)) (size : ℕ) (s : State)
      → 0 < size
      → length (load_str P key def size s).1 < size
  unfolding load_str
  load_str-fits key def size s h = fits (P.status s.trace c) refl
    where
      c : Call
      c = nvs (nvs_get_str s.handle key size)

      fits :
          (r : Err)
          → P.status s.trace c ≡ r
          → length (loaded P r (P.reply s.trace c) (truncate size (text_or_empty def))).1 < size
      fits ok e = laws.get_fits s.trace s.handle size key e
      fits (err k) e = rw loaded-err (length-truncate size (text_or_empty def) h)

  load_str-written :
      (key v : List ℕ) (def : Option (List ℕ)) (size : ℕ) (s : State)
      → stored P key s.trace ≡ holds v
      → length v < size
      → (load_str P key def size s).1 ≡ v
  unfolding load_str loaded
  load_str-written key v def size s e h =
      let (r, text) = laws.get_written s.trace s.handle size key v e h in rw (r, loaded) text

  load_str-erased :
      (key : List ℕ) (def : Option (List ℕ)) (size : ℕ) (s : State)
      → stored P key s.trace ≡ erased
      → (load_str P key def size s).1 ≡ truncate size (text_or_empty def)
  unfolding load_str loaded
  load_str-erased key def size s e = rw (laws.get_erased s.trace s.handle size key e, loaded)

  read_strings-IsWellFormed :
      (defaults : Defaults) (s0 : State) → IsWellFormed (read_strings P defaults s0).0
  unfolding read_strings
  read_strings-IsWellFormed defaults s0 =
      let (r1, ssid, s1) = load_str P key_wifi_ssid (some defaults.wifi_ssid) ssid_len s0 in
      let (r2, pass, s2) = load_str P key_wifi_pass (some defaults.wifi_pass) pass_len s1 in
      let (r3, uri, s3) = load_str P key_broker_uri (some defaults.broker_uri) uri_len s2 in
      let (r4, text, s4) = load_str P key_device_id (some []) id_len s3 in
      let filled =
        id_or_derived-filled P text s4
          (load_str-fits key_device_id (some []) id_len s3 (omega arith)) in
      record {
        ssid = load_str-fits key_wifi_ssid (some defaults.wifi_ssid) ssid_len s0 (omega arith);
        pass = load_str-fits key_wifi_pass (some defaults.wifi_pass) pass_len s1 (omega arith);
        uri = load_str-fits key_broker_uri (some defaults.broker_uri) uri_len s2 (omega arith);
        id = filled.1;
        named = filled.0;
      }

  -- A load in a ready store takes the mutex and reads the strings.
  load-ready :
      (defaults : Defaults) (old : SystemConfig) (s : State)
      → s.initialized ≡ true
      → let (r, cfg, s') = load P defaults valid old s in
        (r ≡ ok) × (cfg ≡ (read_strings P defaults (log_call (mutex (acquire s.lock)) s)).0)
  unfolding load
  load-ready defaults old s h = ground (arith, h)

  -- A load with a buffer, in a ready store, always returns ESP_OK; every string that it gives fits
  -- its buffer, whatever the defaults are, and the device id is never empty, if `nvs_get_str`
  -- behaves as documented.
  pub load-IsWellFormed :
      (defaults : Defaults) (old : SystemConfig) (s : State)
      → s.initialized ≡ true
      → let (r, cfg, s') = load P defaults valid old s in (r ≡ ok) × IsWellFormed cfg
  load-IsWellFormed defaults old s h =
      let (e, cfg) = load-ready defaults old s h in
      (
        e,
        subst IsWellFormed (sym cfg)
            (read_strings-IsWellFormed defaults (log_call (mutex (acquire s.lock)) s)),
      )

  read_strings-provisioned :
      (defaults : Defaults) (ssid pass : List ℕ) (s : State)
      → IsProvisioned P ssid pass s
      → let cfg = (read_strings P defaults s).0 in (cfg.wifi_ssid ≡ ssid) × (cfg.wifi_pass ≡ pass)
  unfolding read_strings load_str
  read_strings-provisioned defaults ssid pass s h =
      let s1 = (load_str P key_wifi_ssid (some defaults.wifi_ssid) ssid_len s).2 in
      (
        load_str-written key_wifi_ssid ssid (some defaults.wifi_ssid) ssid_len s (h.ssid_stored)
            (h.ssid_fits),
        load_str-written key_wifi_pass pass (some defaults.wifi_pass) pass_len s1 (h.pass_stored)
            (h.pass_fits),
      )

  -- WiFi credentials that `system_config_set_wifi` accepted are what the next load gives, if NVS
  -- gives back what is written to it; a NULL passphrase is loaded as the empty string.
  pub load-set_wifi :
      (defaults : Defaults) (old : SystemConfig) (ssid pass : Option (List ℕ)) (s : State)
      → (set_wifi P ssid pass s).0 ≡ ok
      → let (r, cfg, s') = load P defaults valid old (set_wifi P ssid pass s).1 in
        (r ≡ ok) × (cfg.wifi_ssid ≡ text_or_empty ssid) × (cfg.wifi_pass ≡ text_or_empty pass)
  load-set_wifi defaults old ssid pass s e =
      let s1 = (set_wifi P ssid pass s).1 in
      let h = set_wifi-IsProvisioned P ssid pass s e in
      let s2 = log_call (mutex (acquire s1.lock)) s1 in
      let locked : IsProvisioned P (text_or_empty ssid) (text_or_empty pass) s2 = record {
        ready = h.ready;
        ssid_stored = h.ssid_stored;
        pass_stored = h.pass_stored;
        ssid_fits = h.ssid_fits;
        pass_fits = h.pass_fits;
      } in
      let (r, cfg) = load-ready defaults old s1 (h.ready) in
      let both =
        read_strings-provisioned defaults (text_or_empty ssid) (text_or_empty pass) s2 locked in
      (
        r,
        ap (λ (c : SystemConfig). c.wifi_ssid) cfg ∙ both.0,
        ap (λ (c : SystemConfig). c.wifi_pass) cfg ∙ both.1,
      )

  -- After a successful `system_config_reset` a load gives the compile-time defaults, cut to their
  -- buffers, if `nvs_get_str` reports an erased key as missing.
  pub load-reset :
      (defaults : Defaults) (old : SystemConfig) (s : State)
      → (reset P s).0 ≡ ok
      → let (r, cfg, s') = load P defaults valid old (reset P s).1 in
        (cfg.wifi_ssid ≡ truncate ssid_len defaults.wifi_ssid)
        × (cfg.wifi_pass ≡ truncate pass_len defaults.wifi_pass)
        × (cfg.broker_uri ≡ truncate uri_len defaults.broker_uri)
  unfolding load_str read_strings
  load-reset defaults old s e =
      let sr = (reset P s).1 in
      let s0 = log_call (mutex (acquire sr.lock)) sr in
      let s1 = (load_str P key_wifi_ssid (some defaults.wifi_ssid) ssid_len s0).2 in
      let s2 = (load_str P key_wifi_pass (some defaults.wifi_pass) pass_len s1).2 in
      let gone = λ (key : List ℕ). (reset-erased P key s e).0 in
      let (r, cfg) = load-ready defaults old sr (reset-erased P key_wifi_ssid s e).1 in
      (
        ap (λ (c : SystemConfig). c.wifi_ssid) cfg
            ∙ load_str-erased key_wifi_ssid (some defaults.wifi_ssid) ssid_len s0
                (gone key_wifi_ssid),
        ap (λ (c : SystemConfig). c.wifi_pass) cfg
            ∙ load_str-erased key_wifi_pass (some defaults.wifi_pass) pass_len s1
                (gone key_wifi_pass),
        ap (λ (c : SystemConfig). c.broker_uri) cfg
            ∙ load_str-erased key_broker_uri (some defaults.broker_uri) uri_len s2
                (gone key_broker_uri),
      )
