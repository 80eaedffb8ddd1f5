-- ===== src/Network/Topics.antt =====
-- The topics of a device (firmware/main/network/network_manager.c, firmware/main/main.c), which are
-- printed into buffers of 64 bytes.
use fortunelabs_mainboard_l.Prelude.{
  ℕ, ◌≤◌, ◌<◌, ◌≡◌, refl, ◌∙◌, List, [], ◌∷◌, ◌++◌, arith, length,
}
use fortunelabs_mainboard_l.Prelude.Text.{codes, eq_bytes, truncate_short}
use fortunelabs_mainboard_l.SystemConfig.Store.{id_len}
use fortunelabs_mainboard_l.Network.Manager.{topic_of, topic_len}
use fortunelabs_mainboard_l.Ssd1306.Texts.{length-append}

-- The topic of a device as it is meant, before it is put into a buffer.
abbrev pub whole_topic : List ℕ → List ℕ → List ℕ
whole_topic id kind = codes "fortunelabs/device/" ++ (id ++ kind)

-- No topic of a device is cut by its buffer, if the device id fits its own and the last part has at
-- most ten characters.
pub topic_of-whole :
    (id kind : List ℕ)
    → length id < id_len
    → length kind ≤ 10
    → topic_of id kind ≡ whole_topic id kind
unfolding topic_of
topic_of-whole id kind h k = truncate_short topic_len (whole_topic id kind) (
    omega (
      arith,
      h,
      k,
      length-append (codes "fortunelabs/device/") (id ++ kind),
      length-append id kind,
    ))

eq_bytes-prefix : (xs ys zs : List ℕ) → eq_bytes (xs ++ ys) (xs ++ zs) ≡ eq_bytes ys zs
eq_bytes-prefix [] ys zs = refl
eq_bytes-prefix (x ∷ xs) ys zs = ground (arith, eq_bytes-prefix xs ys zs)

-- Two topics of a device are the same exactly if their last parts are.
pub topic_of-distinct :
    (id kind other : List ℕ)
    → length id < id_len
    → length kind ≤ 10
    → length other ≤ 10
    → eq_bytes (topic_of id kind) (topic_of id other) ≡ eq_bytes kind other
topic_of-distinct id kind other h k l =
    rw (topic_of-whole id kind h k, topic_of-whole id other h l)
      (eq_bytes-prefix (codes "fortunelabs/device/") (id ++ kind) (id ++ other)
        ∙ eq_bytes-prefix id kind other)
