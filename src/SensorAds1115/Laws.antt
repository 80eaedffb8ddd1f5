-- ===== src/SensorAds1115/Laws.antt =====
-- The sensor adapter: its invariant, and what a reading is.
use fortunelabs_mainboard_l.Prelude.{
  ℕ, ◌+◌, ◌*◌, ◌^◌, ◌≤◌, ◌<◌, ◌≡◌, refl, true, false, not, [], ◌∷◌, arith, Bool-cases, inl, inr,
}
use fortunelabs_mainboard_l.Prelude.Int.{ℤ, signed16}
use fortunelabs_mainboard_l.Platform.{
  ok, is_ok, Pointer, valid, is_null, Platform, byte_at, transmit, transmit_receive, Err-cases,
}
use fortunelabs_mainboard_l.Bus.Traces.{acked, replied}
use fortunelabs_mainboard_l.Ads1115.Words.{
  channel_0, build_config_word, reg_config, reg_conversion, high_byte, low_byte,
}
use fortunelabs_mainboard_l.Ads1115.Device as Converter
use fortunelabs_mainboard_l.Ads1115.Device.{config_of}
use fortunelabs_mainboard_l.Ads1115.Conversion
use fortunelabs_mainboard_l.SensorAds1115.Adapter.{
  Config, Reading, State, init, read, deinit, scl_hz,
}

converter_init_ready :
    (P : Platform) (cfg : Converter.Config) (s : Converter.State)
    → let (r, s') = Converter.init P valid valid cfg s in r ≡ ok → s'.dev.initialized ≡ true
unfolding Converter.init
converter_init_ready P cfg s = ground arith

converter_read_same :
    (P : Platform) (p out : Pointer) (channel : ℕ) (s : Converter.State)
    → (Converter.read P p channel out s).2.dev ≡ s.dev
converter_read_same P p out channel s = elim (Err-cases (Converter.read P p channel out s).0) [
  | inl e ↦ (Conversion.read-IsConversion P p out channel s e).same
  | inr (c, e) ↦ (Conversion.read_error P p out channel s (rw e)).1
]

module _ {F : Type 0} (volts_per_code : ℕ → F) (from_int : ℤ → F) (mul : F → F → F) where
  abbrev Adapter : Type 0
  Adapter = State volts_per_code from_int mul

  abbrev Sample : Type 0
  Sample = Reading volts_per_code from_int mul

  -- An initialized adapter has a ready converter and a channel that the converter accepts.
  pub record IsReady (s : Adapter) : Type 0 where
    pub device : s.initialized ≡ true → s.conv.dev.initialized ≡ true
    pub in_range : s.initialized ≡ true → s.active_channel_id ≤ 3
    pub resolved : s.initialized ≡ true → s.active_channel ≡ channel_0 + s.active_channel_id

  module _ (P : Platform) where
    init-IsReady :
        (p : Pointer) (cfg : Config) (s : Adapter)
        → IsReady s
        → IsReady (init volts_per_code from_int mul P p cfg s).1
    unfolding init
    init-IsReady p cfg s h =
        let ads_cfg : Converter.Config = record {
          bus = cfg.bus;
          addr = cfg.i2c_addr;
          scl_hz = scl_hz;
          channel_config = cfg.channel_config;
        } in
        ground (arith, h, converter_init_ready P ads_cfg s.conv)

    read-IsReady :
        (out : Pointer) (old : Sample) (s : Adapter)
        → IsReady s
        → IsReady (read volts_per_code from_int mul P out old s).2
    unfolding read
    read-IsReady out old s h =
        ground (arith, h, converter_read_same P valid valid s.active_channel s.conv)

    -- The operations of the adapter keep it consistent: whenever it is initialized, the converter
    -- below it is ready and the active channel is one that the converter accepts.
    pub operations-IsReady :
        (p : Pointer) (cfg : Config) (old : Sample) (s : Adapter)
        → IsReady s
        → IsReady (init volts_per_code from_int mul P p cfg s).1
          × IsReady (read volts_per_code from_int mul P p old s).2
          × IsReady (deinit volts_per_code from_int mul s)
    unfolding deinit
    operations-IsReady p cfg old s h =
        (init-IsReady p cfg s h, read-IsReady p old s h, ground (arith, h))

    -- What a reading is, for the value `v` that it stores.
    pub record IsSample (s : Adapter) (v : Sample) (s' : Adapter) (raw : ℕ) : Type 0 where
      pub code :
          raw
          ≡ byte_at (replied P s'.conv.sys.trace) 0 * 256 + byte_at (replied P s'.conv.sys.trace) 1
      pub sent :
          let w = build_config_word (config_of s.active_channel s.conv.dev) in
          acked P s'.conv.sys.trace
          ≡ transmit_receive s.conv.dev.handle (reg_conversion ∷ []) 2
            ∷ transmit s.conv.dev.handle (reg_config ∷ high_byte w ∷ low_byte w ∷ [])
            ∷ acked P s.conv.sys.trace
      pub value : v.value ≡ mul (from_int (signed16 raw)) s.active_lsb_volts
      pub channel : v.channel ≡ s.active_channel_id
      pub in_range : raw < 2 ^ 16
      pub stamped : v.timestamp_ms < 2 ^ 32

    read_lem :
        (out : Pointer) (old : Sample) (s : Adapter)
        → let (r, v, s') = read volts_per_code from_int mul P out old s in
          (r ≡ ok → (raw : ℕ) × IsSample s v s' raw) × (is_ok r ≡ false → v ≡ old)
    unfolding read
    read_lem out old s =
        let conv = Converter.read P valid s.active_channel valid s.conv in
        elim (Bool-cases (not s.initialized)) [
          | inl a ↦ rw a ((λ e. absurd (cc e)), λ e. refl)
          | inr a ↦ rw a (elim (Bool-cases (is_null out)) [
            | inl b ↦ rw b ((λ e. absurd (cc e)), λ e. refl)
            | inr b ↦ rw b (elim (Err-cases conv.0) [
              | inl o ↦
                  rw (o, read)
                    (
                      (λ e.
                          let h =
                            Conversion.read-IsConversion P valid valid s.active_channel s.conv o in
                          (
                            conv.1,
                            record {
                              code = h.bytes;
                              sent = h.sent;
                              value = refl;
                              channel = refl;
                              in_range = h.bounded;
                              stamped = omega arith;
                            },
                          )),
                      λ e. absurd (cc e),
                    )
              | inr (c, o) ↦ rw (o, read) ((λ e. absurd (cc e)), λ e. refl)
            ])
          ])
        ]

    -- A read that returns ESP_OK made exactly two acknowledged transfers, the configuration word of
    -- the active channel and then the read of the conversion register. It stores the product of the
    -- active scale and of the two bytes read, the high one first, as a signed 16-bit number, with
    -- the active channel's index and a 32-bit time.
    pub read-IsSample :
        (out : Pointer) (old : Sample) (s : Adapter)
        → (read volts_per_code from_int mul P out old s).0 ≡ ok
        → let (r, v, s') = read volts_per_code from_int mul P out old s in
          (raw : ℕ) × IsSample s v s' raw
    read-IsSample out old s = (read_lem out old s).0

    -- A read that fails leaves the reading as it was.
    pub read_error :
        (out : Pointer) (old : Sample) (s : Adapter)
        → is_ok (read volts_per_code from_int mul P out old s).0 ≡ false
        → (read volts_per_code from_int mul P out old s).1 ≡ old
    read_error out old s = (read_lem out old s).1
