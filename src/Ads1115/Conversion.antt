-- ===== src/Ads1115/Conversion.antt =====
-- A conversion of the ADS1115: what is sent, what is returned, and how long the driver waits.
use fortunelabs_mainboard_l.Prelude.{
  ℕ, zero, suc, ◌+◌, ◌*◌, ◌/◌, ◌^◌, ◌≤◌, ◌<◌, ◌≡◌, refl, true, false, not, ◌||◌, List, [], ◌∷◌,
  if◌then◌else◌, arith, Bool-cases, inl, inr, ◌∙◌, get_or,
}
use fortunelabs_mainboard_l.Platform.{
  ok, is_ok, Pointer, is_null, Platform, byte_at, delay_ticks, transmit, transmit_receive,
  Err-cases,
}
use fortunelabs_mainboard_l.Bus.State.{log_call}
use fortunelabs_mainboard_l.Bus.Transfers.{write, write_read, transfer_with}
use fortunelabs_mainboard_l.Bus.Traces.{acked, replied}
use fortunelabs_mainboard_l.Bus.Delivery.{transfer_with-acked, transfer_with-replied}
use fortunelabs_mainboard_l.Ads1115.Words.{
  ChannelConfig, channel_valid, reg_config, reg_conversion, build_config_word, high_byte, low_byte,
  join_bytes-eq, conversion_to_ms, conversion_margin_ms, build_config_word-lt,
}
use fortunelabs_mainboard_l.Ads1115.Device.{
  State, put_sys, config_of, conversion_delay_ms, write_register, read_register, finish_read, read,
}

module _ (P : Platform) where
  write_register-acked :
      (reg v : ℕ) (s : State)
      → let (r, s') = write_register P reg v s in
        (s'.dev ≡ s.dev)
        × (acked P s'.sys.trace ≡ (
            if is_ok r
            then transmit s.dev.handle (reg ∷ high_byte v ∷ low_byte v ∷ []) ∷ acked P s.sys.trace
            else acked P s.sys.trace))
  unfolding write_register write
  write_register-acked reg v s = (
    refl,
    (transfer_with-acked P (transmit s.dev.handle (reg ∷ high_byte v ∷ low_byte v ∷ [])) s.dev.bus
        s.sys).0,
  )

  -- What a read of a register gives: the acknowledged transfer and its two bytes, high one first.
  record IsRegisterRead (reg : ℕ) (s : State) (v : ℕ) (s' : State) : Type 0 where
    same : s'.dev ≡ s.dev
    sent : acked P s'.sys.trace ≡ transmit_receive s.dev.handle (reg ∷ []) 2 ∷ acked P s.sys.trace
    bytes : v ≡ byte_at (replied P s'.sys.trace) 0 * 256 + byte_at (replied P s'.sys.trace) 1

  read_register-IsRegisterRead :
      (reg : ℕ) (s : State)
      → let (r, v, s') = read_register P reg s in r ≡ ok → IsRegisterRead reg s v s'
  unfolding read_register write_read
  read_register-IsRegisterRead reg s e =
      let x = transmit_receive s.dev.handle (reg ∷ []) 2 in
      let acks = (transfer_with-acked P x s.dev.bus s.sys).0 in
      let got = transfer_with-replied P x s.dev.bus s.sys e in
      record {
        same = refl;
        sent = ground (arith, e, acks);
        bytes = rw e (
            rw (← got) (
              join_bytes-eq (byte_at (transfer_with P s.dev.bus x s.sys).1 0)
                (byte_at (transfer_with P s.dev.bus x s.sys).1 1) (omega arith) (omega arith)));
      }

  -- What a successful conversion of a channel is.
  pub record IsConversion (channel : ℕ) (s : State) (v : ℕ) (s' : State) : Type 0 where
    pub ready : s.dev.initialized ≡ true
    pub in_range : channel_valid channel ≡ true
    pub same : s'.dev ≡ s.dev
    pub sent :
        let w = build_config_word (config_of channel s.dev) in
        acked P s'.sys.trace
        ≡ transmit_receive s.dev.handle (reg_conversion ∷ []) 2
          ∷ transmit s.dev.handle (reg_config ∷ high_byte w ∷ low_byte w ∷ [])
          ∷ acked P s.sys.trace
    pub joined :
        let w = build_config_word (config_of channel s.dev) in high_byte w * 256 + low_byte w ≡ w
    pub bytes : v ≡ byte_at (replied P s'.sys.trace) 0 * 256 + byte_at (replied P s'.sys.trace) 1
    pub bounded : v < 2 ^ 16

  finish_read-IsRegisterRead :
      (c : ChannelConfig) (s : State)
      → let (r, v, s') = finish_read P c s in r ≡ ok → IsRegisterRead reg_conversion s v s'
  unfolding finish_read
  finish_read-IsRegisterRead c s e =
      let s1 = put_sys (log_call (delay_ticks (P.ticks (conversion_delay_ms c))) s.sys) s in
      let h = read_register-IsRegisterRead reg_conversion s1 e in
      record { same = h.same; sent = h.sent; bytes = h.bytes }

  -- If a read returns ESP_OK, the driver was ready and the channel in range; exactly two transfers
  -- were acknowledged, the configuration word of the channel (both bytes, the high one first) and
  -- then the read of the result register; and the value is that result, the high byte first, a
  -- 16-bit number. The driver instance is unchanged.
  pub read-IsConversion :
      (p out : Pointer) (channel : ℕ) (s : State)
      → (read P p channel out s).0 ≡ ok
      → let (r, v, s') = read P p channel out s in IsConversion channel s v s'
  unfolding read
  read-IsConversion p out channel s =
      let c = config_of channel s.dev in
      let w = build_config_word c in
      let first = write_register P reg_config w s in
      elim (Bool-cases (is_null p || is_null out)) [
        | inl a ↦ rw a (λ e. absurd (cc e))
        | inr a ↦ rw a (elim (Bool-cases (not s.dev.initialized)) [
          | inl b ↦ rw b (λ e. absurd (cc e))
          | inr b ↦ rw b (elim (Bool-cases (not (channel_valid channel))) [
            | inl d ↦ rw d (λ e. absurd (cc e))
            | inr d ↦ rw d (elim (Err-cases first.0) [
              | inl o ↦
                  rw (o, read)
                    (λ e.
                      let acks = write_register-acked reg_config w s in
                      let h = finish_read-IsRegisterRead c first.1 e in
                      record {
                        ready = ground (arith, b);
                        in_range = ground (arith, d);
                        same = h.same ∙ acks.0;
                        sent = ground (arith, h.sent, acks, o);
                        joined = omega (arith, build_config_word-lt c);
                        bytes = h.bytes;
                        bounded = omega (arith, h.bytes);
                      })
              | inr (k, o) ↦ rw (o, read) (λ e. absurd (cc e))
            ])
          ])
        ])
      ]

  -- Every error of a read leaves the output as it was and the instance unchanged.
  pub read_error :
      (p out : Pointer) (channel : ℕ) (s : State)
      → is_ok (read P p channel out s).0 ≡ false
      → let (r, v, s') = read P p channel out s in (v ≡ 0) × (s'.dev ≡ s.dev)
  unfolding read finish_read read_register
  read_error p out channel s =
      let w = build_config_word (config_of channel s.dev) in
      ground (arith, write_register-acked reg_config w s)

-- The samples per second of each data rate, as its enumerator names them.
abbrev pub samples_per_second : List ℕ
samples_per_second = 8 ∷ 16 ∷ 32 ∷ 64 ∷ 128 ∷ 250 ∷ 475 ∷ 860 ∷ []

-- The delay in milliseconds of every data rate from 1 to 7 is at least one conversion period.
pub conversion_delay_ms-covers :
    (c : ChannelConfig)
    → 1 ≤ c.data_rate
    → c.data_rate ≤ 7
    → 1000 ≤ conversion_delay_ms c * get_or samples_per_second c.data_rate 0
conversion_delay_ms-covers c lo hi = covers c.data_rate lo hi
  where
    covers :
        (d : ℕ)
        → 1 ≤ d
        → d ≤ 7
        → 1000
          ≤ (get_or conversion_to_ms d 0 + conversion_margin_ms) * get_or samples_per_second d 0
    covers zero lo hi = absurd (omega arith)
    covers (suc zero) lo hi = omega arith
    covers (suc (suc zero)) lo hi = omega arith
    covers (suc (suc (suc zero))) lo hi = omega arith
    covers (suc (suc (suc (suc zero)))) lo hi = omega arith
    covers (suc (suc (suc (suc (suc zero))))) lo hi = omega arith
    covers (suc (suc (suc (suc (suc (suc zero)))))) lo hi = omega arith
    covers (suc (suc (suc (suc (suc (suc (suc zero))))))) lo hi = omega arith
    covers (suc (suc (suc (suc (suc (suc (suc (suc d)))))))) lo hi = absurd (omega arith)

-- If a tick is 10 ms, so that `pdMS_TO_TICKS` rounds down to hundredths of a second, the wait for
-- a conversion at 250, 475 or 860 samples per second is no tick at all.
pub no_wait_at_100_hz :
    (P : Platform) (c : ChannelConfig)
    → ((n : ℕ) → P.ticks n ≡ n * 100 / 1000)
    → 5 ≤ c.data_rate
    → c.data_rate ≤ 7
    → P.ticks (conversion_delay_ms c) ≡ 0
no_wait_at_100_hz P c h lo hi = h (conversion_delay_ms c) ∙ none_left c.data_rate lo hi
  where
    none_left :
        (d : ℕ)
        → 5 ≤ d
        → d ≤ 7
        → (get_or conversion_to_ms d 0 + conversion_margin_ms) * 100 / 1000 ≡ 0
    none_left zero lo hi = absurd (omega arith)
    none_left (suc zero) lo hi = absurd (omega arith)
    none_left (suc (suc zero)) lo hi = absurd (omega arith)
    none_left (suc (suc (suc zero))) lo hi = absurd (omega arith)
    none_left (suc (suc (suc (suc zero)))) lo hi = absurd (omega arith)
    none_left (suc (suc (suc (suc (suc zero))))) lo hi = refl
    none_left (suc (suc (suc (suc (suc (suc zero)))))) lo hi = refl
    none_left (suc (suc (suc (suc (suc (suc (suc zero))))))) lo hi = refl
    none_left (suc (suc (suc (suc (suc (suc (suc (suc d)))))))) lo hi = absurd (omega arith)
