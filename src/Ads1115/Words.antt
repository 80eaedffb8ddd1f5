-- ===== src/Ads1115/Words.antt =====
-- firmware/main/drivers/ic/ads1115.h (registers, enums, structs) and, of ads1115.c, the register
-- words and the table of conversion times.
use Prim.Native.Nat.{bit_or}
use fortunelabs_mainboard_l.Prelude.{
  ℕ, ◌+◌, ◌*◌, ◌/◌, ◌%◌, ◌^◌, ◌<◌, ◌≡◌, refl, Bool, true, ◌&&◌, List, [], ◌∷◌, leb, ◌==◌, ==_iff,
  arith, check_to, check_to_at, ◌∙◌,
}

abbrev pub reg_conversion : ℕ
reg_conversion = 0x00

abbrev pub reg_config : ℕ
reg_config = 0x01

abbrev pub config_reset : ℕ
config_reset = 0x8583

abbrev pub conversion_margin_ms : ℕ
conversion_margin_ms = 2

-- `ads1115_channel_t`: the channels are 4 to 7, the multiplexer's codes.
abbrev pub channel_0 : ℕ
channel_0 = 4

abbrev pub channel_3 : ℕ
channel_3 = 7

-- `ads1115_channel_config_t`; the three enums are integers, as in C.
pub record ChannelConfig : Type 0 where
  pub channel : ℕ
  pub pga : ℕ
  pub data_rate : ℕ

-- `_ads1115_channel_valid`
abbrev pub channel_valid : ℕ → Bool
channel_valid channel = leb channel_0 channel && leb channel channel_3

-- `s_conversion_to_ms`, by data rate. No rate has the code 0, whose entry C sets to 0.
abbrev pub conversion_to_ms : List ℕ
conversion_to_ms = 0 ∷ 63 ∷ 32 ∷ 16 ∷ 8 ∷ 4 ∷ 3 ∷ 2 ∷ []

-- `_ads1115_build_config_word`; `x & 0x07` is `x % 8`.
unfoldable pub build_config_word : ChannelConfig → ℕ
build_config_word c =
    let w1 = bit_or 0 (2 ^ 15) in
    let w2 = bit_or w1 (c.channel % 8 * 2 ^ 12) in
    let w3 = bit_or w2 (c.pga % 8 * 2 ^ 9) in
    let w4 = bit_or w3 (2 ^ 8) in let w5 = bit_or w4 (c.data_rate % 8 * 2 ^ 5) in bit_or w5 0x03

-- The two bytes of a register value, the high one first, and back.
abbrev pub high_byte : ℕ → ℕ
high_byte v = v / 2 ^ 8 % 256

abbrev pub low_byte : ℕ → ℕ
low_byte v = v % 256

unfoldable pub join_bytes : ℕ → ℕ → ℕ
join_bytes hi lo = bit_or (hi * 2 ^ 8) lo

-- The fields of a configuration register, by the layout of the chip.
pub record Fields : Type 0 where
  pub os : ℕ
  pub mux : ℕ
  pub pga : ℕ
  pub mode : ℕ
  pub data_rate : ℕ
  pub comparator : ℕ

abbrev pub decode : ℕ → Fields
decode w = record {
  os = w / 2 ^ 15;
  mux = w / 2 ^ 12 % 8;
  pga = w / 2 ^ 9 % 8;
  mode = w / 2 ^ 8 % 2;
  data_rate = w / 2 ^ 5 % 8;
  comparator = w % 2 ^ 5;
}

abbrev word_of : ℕ → ℕ → ℕ → ℕ
word_of c p d = 2 ^ 15 + c * 2 ^ 12 + p * 2 ^ 9 + 2 ^ 8 + d * 2 ^ 5 + 3

abbrev agrees : ℕ → ℕ → ℕ → Bool
agrees c p d = build_config_word (record { channel = c; pga = p; data_rate = d }) == word_of c p d

word_table : check_to (λ c. check_to (λ p. check_to (agrees c p) 8) 8) 8 ≡ true
unfolding check_to build_config_word
word_table = refl

mod-mod : (x : ℕ) → x % 8 % 8 ≡ x % 8
mod-mod x = omega arith

-- The masks keep the low three bits.
masked :
    (c : ChannelConfig)
    → build_config_word c
      ≡ build_config_word
          (record { channel = c.channel % 8; pga = c.pga % 8; data_rate = c.data_rate % 8 })
unfolding build_config_word
masked c = cc (mod-mod c.channel, mod-mod c.pga, mod-mod c.data_rate)

word_lem : (c p d : ℕ) → c < 8 → p < 8 → d < 8 → agrees c p d ≡ true
word_lem c p d hc hp hd =
    check_to_at (agrees c p) 8 d
      (check_to_at (λ p. check_to (agrees c p) 8) 8 p
        (check_to_at (λ c. check_to (λ p. check_to (agrees c p) 8) 8) 8 c word_table hc) hp)
      hd

build_config_word-eq-word_of :
    (c : ChannelConfig)
    → build_config_word c ≡ word_of (c.channel % 8) (c.pga % 8) (c.data_rate % 8)
build_config_word-eq-word_of c =
    masked c
    ∙ (==_iff _ _).0 (
        word_lem (c.channel % 8) (c.pga % 8) (c.data_rate % 8) (omega arith) (omega arith)
          (omega arith))

-- The configuration word starts a single conversion of the channel, gain and rate of its
-- configuration, taken modulo 8, with the comparator disabled.
pub decode-build_config_word :
    (c : ChannelConfig)
    → decode (build_config_word c) ≡ record {
      os = 1;
      mux = c.channel % 8;
      pga = c.pga % 8;
      mode = 1;
      data_rate = c.data_rate % 8;
      comparator = 3;
    }
decode-build_config_word c = ground (arith, build_config_word-eq-word_of c)

join_table : check_to (λ h. check_to (λ l. join_bytes h l == h * 256 + l) 256) 256 ≡ true
unfolding check_to join_bytes
join_table = refl

pub join_bytes-eq : (h l : ℕ) → h < 256 → l < 256 → join_bytes h l ≡ h * 256 + l
join_bytes-eq h l hh hl = (==_iff _ (h * 256 + l)).0 (
    check_to_at (λ l. join_bytes h l == h * 256 + l) 256 l
      (check_to_at (λ h. check_to (λ l. join_bytes h l == h * 256 + l) 256) 256 h join_table hh) hl)

pub build_config_word-lt : (c : ChannelConfig) → build_config_word c < 2 ^ 16
build_config_word-lt c = omega (arith, build_config_word-eq-word_of c)
