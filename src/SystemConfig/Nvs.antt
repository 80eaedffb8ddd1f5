-- ===== src/SystemConfig/Nvs.antt =====
-- What the calls made so far have put into the NVS partition, and what the firmware relies on of
-- `nvs_get_str`.
use fortunelabs_mainboard_l.Prelude.{
  ℕ, ◌<◌, ◌≡◌, true, ◌&&◌, List, [], ◌∷◌, Option, none, some, if◌then◌else◌, length, arith,
}
use fortunelabs_mainboard_l.Prelude.Text.{eq_bytes}
use fortunelabs_mainboard_l.Platform.{
  ok, err, nvs_not_found, is_ok, Call, Trace, Platform, NvsCall, nvs, nvs_get_str, nvs_set_str,
  nvs_erase_all, flash_erase,
}
use fortunelabs_mainboard_l.SystemConfig.Store.{
  State, key_wifi_ssid, key_wifi_pass, text_or_empty, ssid_len, pass_len, set_wifi, reset, commit,
  then_call,
}

-- A key of the namespace of the configuration that was neither written nor erased since the boot, an
-- erased one, a written one.
pub data Entry : Type 0 where
  untouched erased : Entry
  holds : List ℕ → Entry

module _ (P : Platform) where
  abbrev pub stored_nvs : List ℕ → Trace → NvsCall → Entry → Entry
  stored_nvs key t (nvs_set_str h k v) old =
      if is_ok (P.status t (nvs (nvs_set_str h k v))) && eq_bytes k key then holds v else old
  stored_nvs key t (nvs_erase_all h) old =
      if is_ok (P.status t (nvs (nvs_erase_all h))) then erased else old
  stored_nvs key t _ old = old

  abbrev pub stored_call : List ℕ → Trace → Call → Entry → Entry
  stored_call key t (nvs c) old = stored_nvs key t c old
  stored_call key t flash_erase old = if is_ok (P.status t flash_erase) then erased else old
  stored_call key t _ old = old

  -- The entry of a key, by the writes and erasures that succeeded. The firmware opens one namespace.
  abbrev pub stored : List ℕ → Trace → Entry
  stored key [] = untouched
  stored key (c ∷ t) = stored_call key t c (stored key t)

  -- The documented behaviour of `nvs_get_str`: it gives back what was written, if that fits with
  -- its NUL; it reports an erased key as missing; and what it gives fits.
  pub record NvsLaws : Type 0 where
    pub get_written :
        (t : Trace) (h size : ℕ) (key v : List ℕ)
        → stored key t ≡ holds v
        → length v < size
        → (P.status t (nvs (nvs_get_str h key size)) ≡ ok)
          × (P.reply t (nvs (nvs_get_str h key size)) ≡ v)
    pub get_erased :
        (t : Trace) (h size : ℕ) (key : List ℕ)
        → stored key t ≡ erased
        → P.status t (nvs (nvs_get_str h key size)) ≡ err nvs_not_found
    pub get_fits :
        (t : Trace) (h size : ℕ) (key : List ℕ)
        → P.status t (nvs (nvs_get_str h key size)) ≡ ok
        → length (P.reply t (nvs (nvs_get_str h key size))) < size

  -- What a successful `set_wifi` leaves.
  pub record IsProvisioned (ssid pass : List ℕ) (s' : State) : Type 0 where
    pub ready : s'.initialized ≡ true
    pub ssid_stored : stored key_wifi_ssid s'.trace ≡ holds ssid
    pub pass_stored : stored key_wifi_pass s'.trace ≡ holds pass
    pub ssid_fits : length ssid < ssid_len
    pub pass_fits : length pass < pass_len

  -- `system_config_set_wifi` returns ESP_OK only if it is ready, was given an SSID, both strings
  -- fit their buffers, and both are stored.
  pub set_wifi-IsProvisioned :
      (ssid pass : Option (List ℕ)) (s : State)
      → (set_wifi P ssid pass s).0 ≡ ok
      → IsProvisioned (text_or_empty ssid) (text_or_empty pass) (set_wifi P ssid pass s).1
  unfolding set_wifi commit then_call
  set_wifi-IsProvisioned none pass s = ground arith
  set_wifi-IsProvisioned (some ssid) none s = ground arith
  set_wifi-IsProvisioned (some ssid) (some pass) s = ground arith

  -- `system_config_reset` returns ESP_OK only if every key is erased.
  pub reset-erased :
      (key : List ℕ) (s : State)
      → (reset P s).0 ≡ ok
      → (stored key (reset P s).1.trace ≡ erased) × ((reset P s).1.initialized ≡ true)
  unfolding reset commit then_call
  reset-erased key s = ground arith
