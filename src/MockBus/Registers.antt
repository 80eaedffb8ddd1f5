-- ===== src/MockBus/Registers.antt =====
-- The registers of the fake bus: what is read is what was written, as on the chip.
use fortunelabs_mainboard_l.Prelude.{
  ℕ, zero, suc, ◌+◌, ◌<◌, ◌≡◌, refl, ap, ◌∙◌, Bool, true, false, List, [], ◌∷◌, some, if◌then◌else◌,
  ltb, lt→ltb, ◌==◌, ◌%◌, ◌^◌, length, set, get_or, arith,
}
use fortunelabs_mainboard_l.Platform.{ok, valid}
use fortunelabs_mainboard_l.Ads1115.Words.{join_bytes, join_bytes-eq, high_byte, low_byte}
use fortunelabs_mainboard_l.MockBus.State.{
  State, Op, op_write, reg8_count, reg16_count, log_append, resolve_fault, resolve_numbered,
}
use fortunelabs_mainboard_l.MockBus.Transfers.{
  read8, read16, write_shape, write, read_shape, write_read_shape, write_read,
}

pub get_or-set :
    (xs : List ℕ) (i j v : ℕ)
    → i < length xs
    → get_or (set xs i v) j 0 ≡ (if i == j then v else get_or xs j 0)
get_or-set [] i j v h = absurd (omega (arith, h))
get_or-set (x ∷ xs) zero zero v h = refl
get_or-set (x ∷ xs) zero (suc j) v h = ground arith
get_or-set (x ∷ xs) (suc i) zero v h = ground arith
get_or-set (x ∷ xs) (suc i) (suc j) v h = ground (arith, get_or-set xs i j v (omega (arith, h)))

-- No fault is armed.
pub record IsQuiet (s : State) : Type 0 where
  pub next : s.forced_next ≡ ok
  pub numbered : s.forced_number ≡ 0

abbrev pub counted : State → State
counted s = record s { call_counter = (s.call_counter + 1) % 2 ^ 32 }

pub resolve_fault-quiet : (s : State) → IsQuiet s → resolve_fault s ≡ (ok, counted s)
unfolding resolve_fault resolve_numbered
resolve_fault-quiet s q = ground (arith, q.next, q.numbered)

pub log_append-kept :
    (op : Op) (reg v : ℕ) (wide : Bool) (s : State)
    → let s' = log_append op reg v wide s in
      (s'.regs8 ≡ s.regs8)
      × (s'.regs16 ≡ s.regs16)
      × (s'.forced_next ≡ s.forced_next)
      × (s'.forced_number ≡ s.forced_number)
unfolding log_append
log_append-kept op reg v wide s = ground arith

-- What an unfaulted register write leaves.
record IsWritten (s s' : State) (regs8 regs16 : List ℕ) : Type 0 where
  quiet : IsQuiet s'
  regs8_eq : s'.regs8 ≡ regs8
  regs16_eq : s'.regs16 ≡ regs16

write-quiet8 :
    (reg v : ℕ) (s : State)
    → let (r, s') = write (some (reg ∷ v ∷ [])) s in
      IsQuiet s → reg < 32 → (r ≡ ok) × IsWritten s s' (set s.regs8 reg v) s.regs16
unfolding write write_shape
write-quiet8 reg v s q low =
    let low' : ltb reg reg8_count ≡ true = lt→ltb reg reg8_count low in
    let (e8, e16, en, ec) =
      log_append-kept op_write reg v false (record (counted s) { regs8 = set s.regs8 reg v }) in
    let same : write (some (reg ∷ v ∷ [])) s
        ≡ (ok, log_append op_write reg v false (record (counted s) { regs8 = set s.regs8 reg v })) =
      ground (arith, resolve_fault-quiet s q, low') in
    rw same (
      refl,
      record {
        quiet = record { next = en ∙ q.next; numbered = ec ∙ q.numbered };
        regs8_eq = e8;
        regs16_eq = e16;
      },
    )

write-quiet16 :
    (reg high low : ℕ) (s : State)
    → let (r, s') = write (some (reg ∷ high ∷ low ∷ [])) s in
      IsQuiet s
      → reg < 8
      → (r ≡ ok) × IsWritten s s' s.regs8 (set s.regs16 reg (join_bytes high low))
unfolding write write_shape
write-quiet16 reg high low s q below =
    let v = join_bytes high low in
    let below' : ltb reg reg16_count ≡ true = lt→ltb reg reg16_count below in
    let (e8, e16, en, ec) =
      log_append-kept op_write reg v true (record (counted s) { regs16 = set s.regs16 reg v }) in
    let same : write (some (reg ∷ high ∷ low ∷ [])) s ≡ (
      ok,
      log_append op_write reg v true (record (counted s) { regs16 = set s.regs16 reg v }),
    ) =
      ground (arith, resolve_fault-quiet s q, below') in
    rw same (
      refl,
      record {
        quiet = record { next = en ∙ q.next; numbered = ec ∙ q.numbered };
        regs8_eq = e8;
        regs16_eq = e16;
      },
    )

write_read-quiet8 :
    (reg : ℕ) (s : State)
    → let (r, out, s') = write_read (some (reg ∷ [])) valid 1 s in
      IsQuiet s → (r ≡ ok) × (out ≡ read8 reg s ∷ [])
unfolding write_read write_read_shape read_shape
write_read-quiet8 reg s q = ground (arith, resolve_fault-quiet s q)

write_read-quiet16 :
    (reg : ℕ) (s : State)
    → let (r, out, s') = write_read (some (reg ∷ [])) valid 2 s in
      IsQuiet s → (r ≡ ok) × (out ≡ high_byte (read16 reg s) ∷ low_byte (read16 reg s) ∷ [])
unfolding write_read write_read_shape read_shape
write_read-quiet16 reg s q = ground (arith, resolve_fault-quiet s q)

-- With no fault armed, a write of an 8-bit register and then a read of one succeed, and the read
-- gives what was written, or what that other register held before.
pub read_back8 :
    (reg reg' v : ℕ) (s : State)
    → let (r, s1) = write (some (reg ∷ v ∷ [])) s in
      let (r', out, s2) = write_read (some (reg' ∷ [])) valid 1 s1 in
      IsQuiet s
      → length s.regs8 ≡ 32
      → reg < 32
      → (r ≡ ok) × (r' ≡ ok) × (out ≡ (if reg == reg' then v else read8 reg' s) ∷ [])
read_back8 reg reg' v s q size low =
    let (r, w) = write-quiet8 reg v s q low in
    let (r', out) = write_read-quiet8 reg' (write (some (reg ∷ v ∷ [])) s).1 (w.quiet) in
    (
      r,
      r',
      out
          ∙ ap (λ (x : ℕ). x ∷ [])
              (ground
                (arith, w.regs8_eq, get_or-set s.regs8 reg reg' v (omega (arith, size, low)), low)),
    )

bytes_back :
    (high low : ℕ)
    → high < 256
    → low < 256
    → (high_byte (join_bytes high low) ≡ high) × (low_byte (join_bytes high low) ≡ low)
bytes_back high low hh hl =
    let e = join_bytes-eq high low hh hl in (omega (arith, e, hh, hl), omega (arith, e, hh, hl))

-- With no fault armed, a write of the two bytes of a 16-bit register and then a read of two bytes of
-- one succeed, and the read gives the bytes that were written, the high one first, or those of that
-- other register as it was before.
pub read_back16 :
    (reg reg' high low : ℕ) (s : State)
    → let (r, s1) = write (some (reg ∷ high ∷ low ∷ [])) s in
      let (r', out, s2) = write_read (some (reg' ∷ [])) valid 2 s1 in
      IsQuiet s
      → length s.regs16 ≡ 8
      → reg < 8
      → high < 256
      → low < 256
      → (r ≡ ok)
        × (r' ≡ ok)
        × (out ≡ (
            if reg == reg'
            then high ∷ low ∷ []
            else high_byte (read16 reg' s) ∷ low_byte (read16 reg' s) ∷ []))
read_back16 reg reg' high low s q size below hh hl =
    let (r, w) = write-quiet16 reg high low s q below in
    let s1 = (write (some (reg ∷ high ∷ low ∷ [])) s).1 in
    let (r', out) = write_read-quiet16 reg' s1 (w.quiet) in
    let (back_high, back_low) = bytes_back high low hh hl in
    (
      r,
      r',
      ground (
        arith,
        out,
        w.regs16_eq,
        get_or-set s.regs16 reg reg' (join_bytes high low) (omega (arith, size, below)),
        below,
        back_high,
        back_low,
      ),
    )
