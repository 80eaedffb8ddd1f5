-- ===== src/MockBus/History.antt =====
-- The log of the fake bus as the history of its registers.
use fortunelabs_mainboard_l.Prelude.{
  length-snoc, ℕ, zero, suc, ◌≤◌, ◌<◌, ◌≡◌, refl, sym, ap, ◌∙◌, Bool, true, false, not, ◌&&◌, List,
  [], ◌∷◌, ◌++◌, none, some, if◌then◌else◌, ltb, leb, ◌==◌, length, length-set, set, replicate,
  arith, Bool-cases, inl, inr,
}
use fortunelabs_mainboard_l.Platform.{null, valid, Err-cases}
use fortunelabs_mainboard_l.Ads1115.Words.{join_bytes}
use fortunelabs_mainboard_l.MockBus.State.{
  State, Op, Record, op_write, op_read, op_write_read, reg8_count, reg16_count, log_max, reset,
  log_append, resolve_numbered, resolve_fault, force_next_result, force_result_on_call, delay,
}
use fortunelabs_mainboard_l.MockBus.Transfers.{
  write8, write16, write_shape, read8, read16, read_shape, write_read_shape,
}
use fortunelabs_mainboard_l.MockBus.Runs.{
  Request, send, fetch, exchange, call, served, Action, transfer, arm_next, arm_call, wait, act,
  run, call-served,
}

abbrev pub is_write : Op → Bool
is_write op_write = true
is_write _ = false

-- What an entry of the log says of the registers.
abbrev pub apply8 : Record → List ℕ → List ℕ
apply8 r regs = if is_write r.op && not r.is_16bit then set regs r.reg_addr r.value else regs

abbrev pub apply16 : Record → List ℕ → List ℕ
apply16 r regs = if is_write r.op && r.is_16bit then set regs r.reg_addr r.value else regs

abbrev pub replay : (Record → List ℕ → List ℕ) → List Record → List ℕ → List ℕ
replay f [] regs = regs
replay f (r ∷ rs) regs = replay f rs (f r regs)

replay-snoc :
    (f : Record → List ℕ → List ℕ) (rs : List Record) (r : Record) (regs : List ℕ)
    → replay f (rs ++ (r ∷ [])) regs ≡ f r (replay f rs regs)
replay-snoc f [] r regs = refl
replay-snoc f (x ∷ rs) r regs = replay-snoc f rs r (f x regs)

set-out : (xs : List ℕ) (i v : ℕ) → length xs ≤ i → set xs i v ≡ xs
set-out [] i v h = refl
set-out (x ∷ xs) zero v h = absurd (omega (arith, h))
set-out (x ∷ xs) (suc i) v h = ap (λ ys. x ∷ ys) (set-out xs i v (omega (arith, h)))

-- The register files keep their sizes, the log its bound, and while the log is not full, the
-- registers are what its writes leave of zeros.
pub record Logged (regs8 regs16 : List ℕ) (log : List Record) : Type 0 where
  pub size8 : length regs8 ≡ 32
  pub size16 : length regs16 ≡ 8
  pub bounded : length log ≤ 64
  pub history8 : length log < 64 → regs8 ≡ replay apply8 log (replicate 32 0)
  pub history16 : length log < 64 → regs16 ≡ replay apply16 log (replicate 8 0)

abbrev pub IsLogged : State → Type 0
IsLogged s = Logged s.regs8 s.regs16 s.log

-- A state whose registers are changed as the entry that is logged next says.
abbrev changed : Record → State → State
changed r s = record s { regs8 = apply8 r s.regs8; regs16 = apply16 r s.regs16 }

log_append-IsLogged :
    (op : Op) (reg v : ℕ) (wide : Bool) (s : State)
    → let r : Record = record { op = op; reg_addr = reg; value = v; is_16bit = wide } in
      IsLogged s → IsLogged (log_append op reg v wide (changed r s))
unfolding log_append
log_append-IsLogged op reg v wide s h =
    let r : Record = record { op = op; reg_addr = reg; value = v; is_16bit = wide } in
    let size8 : length (apply8 r s.regs8) ≡ 32 =
      ground (arith, h.size8, length-set s.regs8 reg v) in
    let size16 : length (apply16 r s.regs16) ≡ 8 =
      ground (arith, h.size16, length-set s.regs16 reg v) in
    elim (Bool-cases (leb log_max (length s.log))) [
      | inl full ↦ rw full (record {
        size8 = size8;
        size16 = size16;
        bounded = h.bounded;
        history8 = λ few. absurd (ground (arith, full, few));
        history16 = λ few. absurd (ground (arith, full, few));
      })
      | inr room ↦
          let few : length s.log < 64 = ground (arith, room) in
          rw room (record {
            size8 = size8;
            size16 = size16;
            bounded = omega (arith, few, length-snoc s.log r);
            history8 = λ _.
                ap (apply8 r) (h.history8 few) ∙ sym (replay-snoc apply8 s.log r (replicate 32 0));
            history16 = λ _.
                ap (apply16 r) (h.history16 few)
                ∙ sym (replay-snoc apply16 s.log r (replicate 8 0));
          })
    ]

write8-changed :
    (reg v : ℕ) (s : State)
    → length s.regs8 ≡ 32
    → write8 reg v s ≡ record s { regs8 = set s.regs8 reg v }
write8-changed reg v s h = elim (Bool-cases (ltb reg reg8_count)) [
  | inl e ↦ ground (arith, e)
  | inr e ↦ ground (arith, e, set-out s.regs8 reg v (ground (arith, e, h)))
]

write16-changed :
    (reg v : ℕ) (s : State)
    → length s.regs16 ≡ 8
    → write16 reg v s ≡ record s { regs16 = set s.regs16 reg v }
write16-changed reg v s h = elim (Bool-cases (ltb reg reg16_count)) [
  | inl e ↦ ground (arith, e)
  | inr e ↦ ground (arith, e, set-out s.regs16 reg v (ground (arith, e, h)))
]

served-IsLogged : (q : Request) (s : State) → IsLogged s → IsLogged (served q s).1
unfolding write_shape read_shape write_read_shape
served-IsLogged (send none) s h = h
served-IsLogged (send (some [])) s h = h
served-IsLogged (send (some (reg ∷ []))) s h = h
served-IsLogged (send (some (reg ∷ v ∷ []))) s h =
    rw (write8-changed reg v s (h.size8)) (log_append-IsLogged op_write reg v false s h)
served-IsLogged (send (some (reg ∷ high ∷ low ∷ []))) s h =
    rw (write16-changed reg (join_bytes high low) s (h.size16))
      (log_append-IsLogged op_write reg (join_bytes high low) true s h)
served-IsLogged (send (some (reg ∷ high ∷ low ∷ x ∷ xs))) s h = h
served-IsLogged (fetch null n) s h = h
served-IsLogged (fetch valid n) s h = elim (Bool-cases (n == 0)) [
  | inl e ↦ rw e h
  | inr e ↦ rw e (log_append-IsLogged op_read 0 0 false s h)
]
served-IsLogged (exchange none p n) s h = h
served-IsLogged (exchange (some []) p n) s h = h
served-IsLogged (exchange (some (reg ∷ xs)) null n) s h = h
served-IsLogged (exchange (some (reg ∷ xs)) valid n) s h = elim (Bool-cases (n == 1)) [
  | inl e ↦ rw e (log_append-IsLogged op_write_read reg (read8 reg s) false s h)
  | inr e ↦ elim (Bool-cases (n == 2)) [
    | inl f ↦ rw (e, f) (log_append-IsLogged op_write_read reg (read16 reg s) true s h)
    | inr f ↦ rw (e, f) h
  ]
]

-- The states that agree on the registers and the log.
pub record SameStore (s s' : State) : Type 0 where
  pub regs8 : s'.regs8 ≡ s.regs8
  pub regs16 : s'.regs16 ≡ s.regs16
  pub log : s'.log ≡ s.log

pub resolve_fault-SameStore : (s : State) → SameStore s (resolve_fault s).1
unfolding resolve_fault resolve_numbered
resolve_fault-SameStore s = record {
  regs8 = ground arith;
  regs16 = ground arith;
  log = ground arith;
}

IsLogged-SameStore : {s s' : State} → SameStore s s' → IsLogged s → IsLogged s'
IsLogged-SameStore e h = rw (e.regs8, e.regs16, e.log) h

pub call-IsLogged : (q : Request) (s : State) → IsLogged s → IsLogged (call q s).1
call-IsLogged q s h =
    let kept = IsLogged-SameStore (resolve_fault-SameStore s) h in
    elim (Err-cases (resolve_fault s).0) [
      | inl e ↦ rw (call-served q s, e) (served-IsLogged q (resolve_fault s).1 kept)
      | inr (c, e) ↦ rw (call-served q s, e) kept
    ]

act-IsLogged : (a : Action) (s : State) → IsLogged s → IsLogged (act a s)
unfolding force_next_result force_result_on_call delay
act-IsLogged (transfer q) s h = call-IsLogged q s h
act-IsLogged (arm_next e) s h = h
act-IsLogged (arm_call n e) s h = h
act-IsLogged (wait n) s h = h

pub reset-IsLogged : IsLogged reset
reset-IsLogged = record {
  size8 = refl;
  size16 = refl;
  bounded = omega arith;
  history8 = λ _. refl;
  history16 = λ _. refl;
}

actions-IsLogged : (as' : List Action) (s : State) → IsLogged s → IsLogged (run as' s)
unfolding run
actions-IsLogged [] s h = h
actions-IsLogged (a ∷ as') s h = actions-IsLogged as' (act a s) (act-IsLogged a s h)

run-IsLogged : (as' : List Action) → IsLogged (run as' reset)
run-IsLogged as' = actions-IsLogged as' reset reset-IsLogged

-- After a reset and any transfers, delays and armed faults that leave the log not full, the
-- registers are what the writes in the log leave of zeros, and the register files have their sizes.
pub run-replay :
    (as' : List Action)
    → let s = run as' reset in
      length s.log < 64
      → (s.regs8 ≡ replay apply8 s.log (replicate 32 0))
        × (s.regs16 ≡ replay apply16 s.log (replicate 8 0))
        × (length s.regs8 ≡ 32)
        × (length s.regs16 ≡ 8)
run-replay as' few =
    let h = run-IsLogged as' in (h.history8 few, h.history16 few, h.size8, h.size16)
