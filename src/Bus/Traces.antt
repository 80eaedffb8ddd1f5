-- ===== src/Bus/Traces.antt =====
-- What a trace of calls says: which transfers were acknowledged, how many were tried, whether the
-- mutex of the bus is held, and whether the bus was used only while it was.
use fortunelabs_mainboard_l.Prelude.{
  ℕ, ◌+◌, ◌≡◌, Bool, true, false, List, [], ◌∷◌, if◌then◌else◌, ◌==◌,
}
use fortunelabs_mainboard_l.Platform.{
  is_ok, Call, Trace, Platform, MutexCall, mutex, acquire, release, I2cCall, i2c, Transfer,
  transfer, probe,
}

-- How many transfers were tried.
abbrev pub attempts_i2c : I2cCall → ℕ
attempts_i2c (transfer x) = 1
attempts_i2c _ = 0

abbrev pub attempts_call : Call → ℕ
attempts_call (i2c c) = attempts_i2c c
attempts_call _ = 0

abbrev pub attempts : Trace → ℕ
attempts [] = 0
attempts (c ∷ t) = attempts_call c + attempts t

-- Whether a call uses the bus: a transfer or a probe.
abbrev pub is_traffic_i2c : I2cCall → Bool
is_traffic_i2c (transfer x) = true
is_traffic_i2c (probe h a) = true
is_traffic_i2c _ = false

abbrev pub is_traffic : Call → Bool
is_traffic (i2c c) = is_traffic_i2c c
is_traffic _ = false

module _ (P : Platform) where
  open P use {status, value, reply}

  abbrev pub acked_i2c : Trace → I2cCall → List Transfer → List Transfer
  acked_i2c t (transfer x) xs = if is_ok (status t (i2c (transfer x))) then x ∷ xs else xs
  acked_i2c t _ xs = xs

  abbrev pub acked_call : Trace → Call → List Transfer → List Transfer
  acked_call t (i2c c) xs = acked_i2c t c xs
  acked_call t _ xs = xs

  -- The transfers that the driver acknowledged with ESP_OK, the newest first.
  abbrev pub acked : Trace → List Transfer
  acked [] = []
  acked (c ∷ t) = acked_call t c (acked t)

  abbrev pub replied_i2c : Trace → I2cCall → List ℕ → List ℕ
  replied_i2c t (transfer x) buf =
      if is_ok (status t (i2c (transfer x))) then reply t (i2c (transfer x)) else buf
  replied_i2c t _ buf = buf

  abbrev pub replied_call : Trace → Call → List ℕ → List ℕ
  replied_call t (i2c c) buf = replied_i2c t c buf
  replied_call t _ buf = buf

  -- The bytes of the newest transfer that was acknowledged.
  abbrev pub replied : Trace → List ℕ
  replied [] = []
  replied (c ∷ t) = replied_call t c (replied t)

  abbrev pub held_mutex : ℕ → Trace → MutexCall → Bool → Bool
  held_mutex m t (acquire n) b =
      if n == m then (if value t (mutex (acquire n)) == 0 then b else true) else b
  held_mutex m t (release n) b = if n == m then false else b
  held_mutex m t _ b = b

  abbrev pub held_call : ℕ → Trace → Call → Bool → Bool
  held_call m t (mutex c) b = held_mutex m t c b
  held_call m t _ b = b

  -- Whether the mutex is held: it was taken, and not given back since.
  abbrev pub held : ℕ → Trace → Bool
  held m [] = false
  held m (c ∷ t) = held_call m t c (held m t)

  -- Every transfer and every probe was made while the mutex was held.
  abbrev pub Guarded : ℕ → Trace → Type 0
  Guarded m [] = Unit {0}
  Guarded m (c ∷ t) = (is_traffic c ≡ true → held m t ≡ true) × Guarded m t
