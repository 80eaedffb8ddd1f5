-- ===== src/LogService/Serial.antt =====
-- The serial output of the log facade: what the UART shows, whatever becomes of the copies.
use fortunelabs_mainboard_l.Prelude.{
  ℕ, suc, ◌≡◌, refl, ap, ◌∙◌, List, [], ◌∷◌, Option, some, arith, length,
}
use fortunelabs_mainboard_l.Queues.{QueueApi}
use fortunelabs_mainboard_l.LogService.Facade.{
  State, Writer, uart, hook, print, queue_line, copy_line, log_vprintf, log_line, log_all,
}

-- Lines written one after the other, before those that were written already.
abbrev pub newest_first : List (List ℕ) → List (List ℕ) → List (List ℕ)
newest_first [] old = old
newest_first (x ∷ xs) old = newest_first xs (x ∷ old)

-- A writer of esp_log that ends at the UART, at once or through the hook, which then has saved that
-- of the UART.
pub data Reaches (writer : Writer) (orig : Option Writer) : Type 0 where
  direct : writer ≡ uart → Reaches writer orig
  hooked : writer ≡ hook → orig ≡ some uart → Reaches writer orig

module _ (api : QueueApi (List ℕ)) where
  abbrev pub IsWritable : State api → Type 0
  IsWritable s = Reaches s.writer s.orig

  -- A state that differs at most in what becomes of the copies.
  record SameOutput (s s' : State api) : Type 0 where
    serial : s'.serial ≡ s.serial
    writer : s'.writer ≡ s.writer
    orig : s'.orig ≡ s.orig

  copy_line-SameOutput : (text : List ℕ) (s : State api) → SameOutput s (copy_line api text s)
  unfolding copy_line queue_line
  copy_line-SameOutput text s = record {
    serial = ground arith;
    writer = ground arith;
    orig = ground arith;
  }

  IsWritable-SameOutput : {s s' : State api} → SameOutput s s' → IsWritable s → IsWritable s'
  IsWritable-SameOutput same (direct w) = direct (same.writer ∙ w)
  IsWritable-SameOutput same (hooked w o) = hooked (same.writer ∙ w) (same.orig ∙ o)

  -- A call of the hook that has saved the writer of the UART: it returns, whatever the fuel.
  pub log_vprintf-returns :
      (fuel : ℕ) (text : List ℕ) (s : State api)
      → s.orig ≡ some uart
      → log_vprintf api (suc fuel) text s
        ≡ some (length text, copy_line api text (print api text s))
  unfolding log_vprintf
  log_vprintf-returns fuel text s o = rw o refl

  -- What a line leaves on the UART.
  abbrev Written : List (List ℕ) → State api → Option (State api) → Type 0
  Written texts s r =
      (s1 : State api) × (r ≡ some s1) × (s1.serial ≡ newest_first texts s.serial) × IsWritable s1

  log_line-Written :
      (fuel : ℕ) (text : List ℕ) (s : State api)
      → IsWritable s
      → Written (text ∷ []) s (log_line api (suc fuel) text s)
  unfolding log_line
  log_line-Written fuel text s (direct w) = (print api text s, ground (arith, w), refl, direct w)
  log_line-Written fuel text s (hooked w o) =
      let same = copy_line-SameOutput text (print api text s) in
      (
        copy_line api text (print api text s),
        ground (arith, w, log_vprintf-returns fuel text s o),
        same.serial,
        IsWritable-SameOutput same (hooked w o),
      )

  -- Logging always returns, and every line is on the UART, in the order of their logging, whether or
  -- not there is a sink or a queue or room in it, if esp_log writes to the UART, at once or through
  -- the hook. A fuel of one call is enough.
  pub log_all-serial :
      (fuel : ℕ) (texts : List (List ℕ)) (s : State api)
      → IsWritable s
      → (s' : State api) × (log_all api (suc fuel) texts s ≡ some s')
        × (s'.serial ≡ newest_first texts s.serial)
        × IsWritable s'
  unfolding log_all
  log_all-serial fuel [] s w = (s, refl, refl, w)
  log_all-serial fuel (t ∷ ts) s w =
      let (s1, one, out1, w1) = log_line-Written fuel t s w in
      let (s', rest, out', w') = log_all-serial fuel ts s1 w1 in
      (s', rw (log_all, one) rest, out' ∙ ap (newest_first ts) out1, w')
