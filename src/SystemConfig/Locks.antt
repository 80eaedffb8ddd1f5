-- ===== src/SystemConfig/Locks.antt =====
-- The mutex of firmware/main/system/system_config.c.
use fortunelabs_mainboard_l.Prelude.{ℕ, suc, ◌+◌, ◌≡◌, refl, List, [], ◌∷◌, Option, some, arith}
use fortunelabs_mainboard_l.Platform.{Pointer, Trace, Platform, mutex, acquire, release}
use fortunelabs_mainboard_l.SystemConfig.Store.{
  State, Defaults, SystemConfig, log_call, set_wifi, set_broker, reset, commit, then_call, load,
  read_strings, load_str, id_or_derived, derive_device_id, get_device_id, ssid_len, pass_len,
  uri_len, id_len, key_wifi_ssid, key_wifi_pass, key_broker_uri, key_device_id,
}

-- How often the mutex was taken, and how often it was given back.
abbrev pub takes : Trace → ℕ
takes [] = 0
takes (mutex (acquire m) ∷ t) = suc (takes t)
takes (c ∷ t) = takes t

abbrev pub gives : Trace → ℕ
gives [] = 0
gives (mutex (release m) ∷ t) = suc (gives t)
gives (c ∷ t) = gives t

-- From one state to another the mutex was given back as often as it was taken, and is the same.
abbrev pub IsBalanced : State → State → Type 0
IsBalanced s s' =
    (takes s'.trace + gives s.trace ≡ takes s.trace + gives s'.trace) × (s'.lock ≡ s.lock)

module _ (P : Platform) where
  load_str-IsBalanced :
      (key : List ℕ) (def : Option (List ℕ)) (size : ℕ) (s : State)
      → IsBalanced s (load_str P key def size s).2
  unfolding load_str
  load_str-IsBalanced key def size s = (refl, refl)

  id_or_derived-IsBalanced :
      (text : List ℕ) (size : ℕ) (s : State) → IsBalanced s (id_or_derived P text size s).1
  unfolding id_or_derived derive_device_id
  id_or_derived-IsBalanced text size s = ground arith

  read_strings-IsBalanced :
      (defaults : Defaults) (s0 : State) → IsBalanced s0 (read_strings P defaults s0).1
  unfolding read_strings
  read_strings-IsBalanced defaults s0 =
      let (r1, ssid, s1) = load_str P key_wifi_ssid (some defaults.wifi_ssid) ssid_len s0 in
      let (r2, pass, s2) = load_str P key_wifi_pass (some defaults.wifi_pass) pass_len s1 in
      let (r3, uri, s3) = load_str P key_broker_uri (some defaults.broker_uri) uri_len s2 in
      let (r4, text, s4) = load_str P key_device_id (some []) id_len s3 in
      ground (
        arith,
        load_str-IsBalanced key_wifi_ssid (some defaults.wifi_ssid) ssid_len s0,
        load_str-IsBalanced key_wifi_pass (some defaults.wifi_pass) pass_len s1,
        load_str-IsBalanced key_broker_uri (some defaults.broker_uri) uri_len s2,
        load_str-IsBalanced key_device_id (some []) id_len s3,
        id_or_derived-IsBalanced text id_len s4,
      )

  load-IsBalanced :
      (defaults : Defaults) (out : Pointer) (old : SystemConfig) (s : State)
      → IsBalanced s (load P defaults out old s).2
  unfolding load
  load-IsBalanced defaults out old s =
      ground (arith, read_strings-IsBalanced defaults (log_call (mutex (acquire s.lock)) s))

  get_device_id-IsBalanced :
      (p : Pointer) (n : ℕ) (s : State) → IsBalanced s (get_device_id P p n s).2
  unfolding get_device_id
  get_device_id-IsBalanced p n s =
      let s0 = log_call (mutex (acquire s.lock)) s in
      let (r, text, s1) = load_str P key_device_id (some []) n s0 in
      ground (
        arith,
        load_str-IsBalanced key_device_id (some []) n s0,
        id_or_derived-IsBalanced text n s1,
      )

  -- Every operation of the configuration store gives back the mutex as often as it takes it, on
  -- every path, the failing ones included.
  pub store-IsBalanced :
      (defaults : Defaults) (p : Pointer) (n : ℕ) (old : SystemConfig) (a b : Option (List ℕ))
      (s : State)
      → IsBalanced s (load P defaults p old s).2
        × IsBalanced s (set_wifi P a b s).1
        × IsBalanced s (set_broker P a s).1
        × IsBalanced s (get_device_id P p n s).2
        × IsBalanced s (reset P s).1
  unfolding set_wifi set_broker reset commit then_call
  store-IsBalanced defaults p n old a b s = (
    load-IsBalanced defaults p old s,
    ground arith,
    ground arith,
    get_device_id-IsBalanced p n s,
    ground arith,
  )
