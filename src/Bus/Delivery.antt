-- ===== src/Bus/Delivery.antt =====
-- Transfers on the bus (firmware/main/bus/i2c_bus.c): what the driver acknowledged, against what
-- the caller is told.
use fortunelabs_mainboard_l.Prelude.{
  ℕ, ◌+◌, ◌≤◌, ◌≡◌, refl, false, List, ◌∷◌, arith, Bool-cases, inl, inr, if◌then◌else◌,
}
use fortunelabs_mainboard_l.Platform.{
  Err, ok, err, timeout, is_ok, Pointer, Platform, mutex, acquire, i2c, Transfer, transfer,
}
use fortunelabs_mainboard_l.Bus.State.{Sys, log_call, count_error}
use fortunelabs_mainboard_l.Bus.Recovery.{recover_locked}
use fortunelabs_mainboard_l.Bus.Transfers.{retry, after_timeout, transfer_locked, transfer_with}
use fortunelabs_mainboard_l.Bus.Traces.{attempts, acked, replied}
use fortunelabs_mainboard_l.Bus.Quiet.{Quiet-attempts, Quiet-acked, recover_locked-IsStep}

module _ (P : Platform) (x : Transfer) where
  -- The acknowledged transfers after a call that ended with an error or with success.
  abbrev pub delivered : Err → List Transfer → List Transfer
  delivered r xs = if is_ok r then x ∷ xs else xs

  retry-acked :
      (c : Err) (buf : List ℕ) (s : Sys)
      → is_ok c ≡ false
      → let (r, out, s') = retry P 1 x c buf s in
        (acked P s'.trace ≡ delivered r (acked P s.trace))
        × (attempts s'.trace ≡ attempts s.trace + 1)
  unfolding retry
  retry-acked c buf s h = ground arith

  after_timeout-acked :
      (buf : List ℕ) (s : Sys)
      → let (r, out, s') = after_timeout P x buf s in
        (acked P s'.trace ≡ delivered r (acked P s.trace))
        × (attempts s'.trace ≤ attempts s.trace + 1)
  unfolding after_timeout
  after_timeout-acked buf s =
      let (r, s') = recover_locked P s in
      let q = (recover_locked-IsStep P s).quiet in
      elim (Bool-cases (is_ok r)) [
        | inl e ↦ rw e (
            ground
              (arith, retry-acked (err timeout) buf s' refl, Quiet-acked P q, Quiet-attempts q))
        | inr e ↦ rw e (ground (arith, Quiet-acked P q, Quiet-attempts q))
      ]

  transfer_locked-acked :
      (s : Sys)
      → let (r, out, s') = transfer_locked P x s in
        (acked P s'.trace ≡ delivered r (acked P s.trace))
        × (attempts s'.trace ≤ attempts s.trace + 2)
  unfolding transfer_locked
  transfer_locked-acked s =
      let c = i2c (transfer x) in
      ground (arith, after_timeout-acked (P.reply s.trace c) (count_error (log_call c s)))

  -- A transfer call returns ESP_OK exactly if the driver acknowledged the transfer, which it then
  -- did exactly once; on an error no acknowledged transfer is added. It tries at most twice.
  pub transfer_with-acked :
      (p : Pointer) (s : Sys)
      → let (r, out, s') = transfer_with P p x s in
        (acked P s'.trace ≡ delivered r (acked P s.trace))
        × (attempts s'.trace ≤ attempts s.trace + 2)
  unfolding transfer_with
  transfer_with-acked p s =
      ground (arith, transfer_locked-acked (log_call (mutex (acquire s.bus.lock)) s))

  retry-replied :
      (c : Err) (buf : List ℕ) (s : Sys)
      → is_ok c ≡ false
      → let (r, out, s') = retry P 1 x c buf s in r ≡ ok → out ≡ replied P s'.trace
  unfolding retry
  retry-replied c buf s h = ground arith

  after_timeout-replied :
      (buf : List ℕ) (s : Sys)
      → let (r, out, s') = after_timeout P x buf s in r ≡ ok → out ≡ replied P s'.trace
  unfolding after_timeout
  after_timeout-replied buf s =
      let (r, s') = recover_locked P s in
      elim (Bool-cases (is_ok r)) [
        | inl e ↦ rw e (retry-replied (err timeout) buf s' refl)
        | inr e ↦ rw e (λ f. cc)
      ]

  transfer_locked-replied :
      (s : Sys) → let (r, out, s') = transfer_locked P x s in r ≡ ok → out ≡ replied P s'.trace
  unfolding transfer_locked
  transfer_locked-replied s =
      let c = i2c (transfer x) in
      ground (arith, after_timeout-replied (P.reply s.trace c) (count_error (log_call c s)))

  -- On ESP_OK the bytes that the caller gets are those of the acknowledged transfer, not of an
  -- attempt that failed before it.
  pub transfer_with-replied :
      (p : Pointer) (s : Sys)
      → (transfer_with P p x s).0 ≡ ok
      → let (r, out, s') = transfer_with P p x s in out ≡ replied P s'.trace
  unfolding transfer_with
  transfer_with-replied p s =
      ground (arith, transfer_locked-replied (log_call (mutex (acquire s.bus.lock)) s))
