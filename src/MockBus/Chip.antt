-- ===== src/MockBus/Chip.antt =====
-- The fake bus against the chip: transfers that a chip has acknowledged, replayed on the fake bus.
use fortunelabs_mainboard_l.Prelude.{
  ℕ, zero, suc, ◌<◌, ◌≡◌, refl, sym, ap, ◌∙◌, Bool, true, false, ◌&&◌, List, [], ◌∷◌, Option, none,
  some, if◌then◌else◌, ltb, ◌==◌, length, set, get_or, replicate, arith, Bool-cases, inl, inr,
}
use fortunelabs_mainboard_l.Platform.{
  ok, null, valid, Transfer, transmit, receive, transmit_receive,
}
use fortunelabs_mainboard_l.Ads1115.Words.{join_bytes}
use fortunelabs_mainboard_l.Mcp23017.Latches.{latch, payload}
use fortunelabs_mainboard_l.MockBus.State.{
  State, Op, op_write, op_read, op_write_read, reset, log_append, get_reg,
}
use fortunelabs_mainboard_l.MockBus.Transfers.{
  read8, read16, write8, write16, write_shape, read_shape, write_read_shape,
}
use fortunelabs_mainboard_l.MockBus.Runs.{Request, send, fetch, exchange, call, served, call-served}
use fortunelabs_mainboard_l.MockBus.History.{IsLogged, call-IsLogged, reset-IsLogged}
use fortunelabs_mainboard_l.MockBus.Registers.{
  IsQuiet, counted, resolve_fault-quiet, log_append-kept, get_or-set,
}

-- A transfer as the driver asks for it.
abbrev pub request_of : Transfer → Request
request_of (transmit h bytes) = send (some bytes)
request_of (receive h n) = fetch valid n
request_of (transmit_receive h bytes n) = exchange (some bytes) valid n

-- Transfers on the fake bus, given the newest first.
unfoldable pub replayed : List Transfer → State → State
replayed [] s = s
replayed (x ∷ xs) s = (call (request_of x) (replayed xs s)).1

abbrev pub device_of : Transfer → ℕ
device_of (transmit h bytes) = h
device_of (receive h n) = h
device_of (transmit_receive h bytes n) = h

-- All transfers are to one device.
unfoldable pub all_to : ℕ → List Transfer → Bool
all_to h [] = true
all_to h (x ∷ xs) = (device_of x == h) && all_to h xs

abbrev put_pair : Option (ℕ × ℕ) → List ℕ → List ℕ
put_pair none regs = regs
put_pair (some (reg, v)) regs = if ltb reg 32 then set regs reg v else regs

-- What a request does to the 8-bit registers.
abbrev effect8 : Request → List ℕ → List ℕ
effect8 (send (some bytes)) regs = put_pair (payload bytes) regs
effect8 _ regs = regs

record IsServed (q : Request) (s s' : State) : Type 0 where
  quiet : IsQuiet s'
  regs8_eq : s'.regs8 ≡ effect8 q s.regs8

IsServed-same : (q : Request) (s : State) → effect8 q s.regs8 ≡ s.regs8 → IsQuiet s → IsServed q s s
IsServed-same q s e w = record { quiet = w; regs8_eq = sym e }

logged-IsServed :
    (q : Request) (op : Op) (reg v : ℕ) (wide : Bool) (s s1 : State)
    → s1.regs8 ≡ effect8 q s.regs8
    → IsQuiet s1
    → IsServed q s (log_append op reg v wide s1)
logged-IsServed q op reg v wide s s1 e w =
    let (e8, e16, en, ec) = log_append-kept op reg v wide s1 in
    record { quiet = record { next = en ∙ w.next; numbered = ec ∙ w.numbered }; regs8_eq = e8 ∙ e }

served-IsServed : (q : Request) (s : State) → IsQuiet s → IsServed q s (served q s).1
unfolding write_shape read_shape write_read_shape
served-IsServed (send none) s w = IsServed-same (send none) s refl w
served-IsServed (send (some [])) s w = IsServed-same (send (some [])) s refl w
served-IsServed (send (some (reg ∷ []))) s w = IsServed-same (send (some (reg ∷ []))) s refl w
served-IsServed (send (some (reg ∷ v ∷ []))) s w =
    logged-IsServed (send (some (reg ∷ v ∷ []))) op_write reg v false s (write8 reg v s)
      (ground arith)
      (record { next = ground (arith, w.next); numbered = ground (arith, w.numbered) })
served-IsServed (send (some (reg ∷ high ∷ low ∷ []))) s w =
    logged-IsServed (send (some (reg ∷ high ∷ low ∷ []))) op_write reg (join_bytes high low) true s
      (write16 reg (join_bytes high low) s) (ground arith)
      (record { next = ground (arith, w.next); numbered = ground (arith, w.numbered) })
served-IsServed (send (some (reg ∷ high ∷ low ∷ x ∷ xs))) s w =
    IsServed-same (send (some (reg ∷ high ∷ low ∷ x ∷ xs))) s refl w
served-IsServed (fetch null n) s w = IsServed-same (fetch null n) s refl w
served-IsServed (fetch valid n) s w = elim (Bool-cases (n == 0)) [
  | inl e ↦ rw e (IsServed-same (fetch valid n) s refl w)
  | inr e ↦ rw e (logged-IsServed (fetch valid n) op_read 0 0 false s s refl w)
]
served-IsServed (exchange none p n) s w = IsServed-same (exchange none p n) s refl w
served-IsServed (exchange (some []) p n) s w = IsServed-same (exchange (some []) p n) s refl w
served-IsServed (exchange (some (reg ∷ xs)) null n) s w =
    IsServed-same (exchange (some (reg ∷ xs)) null n) s refl w
served-IsServed (exchange (some (reg ∷ xs)) valid n) s w =
    let q : Request = exchange (some (reg ∷ xs)) valid n in
    elim (Bool-cases (n == 1)) [
      | inl e ↦ rw e (logged-IsServed q op_write_read reg (read8 reg s) false s s refl w)
      | inr e ↦ elim (Bool-cases (n == 2)) [
        | inl f ↦ rw (e, f) (logged-IsServed q op_write_read reg (read16 reg s) true s s refl w)
        | inr f ↦ rw (e, f) (IsServed-same q s refl w)
      ]
    ]

call-IsServed : (q : Request) (s : State) → IsQuiet s → IsServed q s (call q s).1
call-IsServed q s w =
    let same : call q s ≡ served q (counted s) =
      ground (arith, call-served q s, resolve_fault-quiet s w) in
    let d = served-IsServed q (counted s) (record { next = w.next; numbered = w.numbered }) in
    rw same (record { quiet = d.quiet; regs8_eq = d.regs8_eq })

-- The byte that a register of zeros holds after what was last written to it, if anything was.
abbrev pub held : Option ℕ → ℕ
held none = 0
held (some v) = v

put_pair-held :
    (reg : ℕ) (p : Option (ℕ × ℕ)) (regs : List ℕ) (old : Option ℕ)
    → reg < 32
    → length regs ≡ 32
    → get_or regs reg 0 ≡ held old
    → get_or (put_pair p regs) reg 0
      ≡ held (elim p [ none ↦ old | some (reg', v) ↦ if reg' == reg then some v else old ])
put_pair-held reg none regs old low size e = e
put_pair-held reg (some (reg', v)) regs old low size e = elim (Bool-cases (ltb reg' 32)) [
  | inl f ↦ ground (arith, f, e, get_or-set regs reg' reg v (ground (arith, f, size)))
  | inr f ↦ ground (arith, f, e, low)
]

latch-request :
    (h reg : ℕ) (x : Transfer) (xs : List Transfer) (regs : List ℕ)
    → reg < 32
    → length regs ≡ 32
    → (device_of x == h) ≡ true
    → get_or regs reg 0 ≡ held (latch h reg xs)
    → get_or (effect8 (request_of x) regs) reg 0 ≡ held (latch h reg (x ∷ xs))
unfolding latch
latch-request h reg (transmit h' bytes) xs regs low size to e =
    put_pair-held reg (payload bytes) regs (latch h reg xs) low size e ∙ ground (arith, to)
latch-request h reg (receive h' n) xs regs low size to e = e
latch-request h reg (transmit_receive h' bytes n) xs regs low size to e = e

-- A fake bus on which transfers were replayed.
record IsReplayed (h : ℕ) (xs : List Transfer) (s : State) : Type 0 where
  quiet : IsQuiet s
  logged : IsLogged s
  same : (reg : ℕ) → reg < 32 → get_or s.regs8 reg 0 ≡ held (latch h reg xs)

zeros : (reg n : ℕ) → get_or {A = ℕ} (replicate n 0) reg 0 ≡ 0
zeros reg zero = refl
zeros zero (suc n) = refl
zeros (suc reg) (suc n) = zeros reg n

replayed-IsReplayed :
    (h : ℕ) (xs : List Transfer) → all_to h xs ≡ true → IsReplayed h xs (replayed xs reset)
unfolding replayed all_to latch
replayed-IsReplayed h [] to = record {
  quiet = record { next = refl; numbered = refl };
  logged = reset-IsLogged;
  same = λ reg low. zeros reg 32;
}
replayed-IsReplayed h (x ∷ xs) to =
    let s : State = replayed xs reset in
    let d : IsReplayed h xs s = replayed-IsReplayed h xs (ground (arith, to)) in
    let e = call-IsServed (request_of x) s d.quiet in
    record {
      quiet = e.quiet;
      logged = call-IsLogged (request_of x) s (d.logged);
      same = λ reg low.
          ap (λ (regs : List ℕ). get_or regs reg 0) (e.regs8_eq)
          ∙ latch-request h reg x xs s.regs8 low (d.logged.size8) (ground (arith, to))
              (d.same reg low);
    }

-- The transfers to one device that a chip has acknowledged, replayed on the fake bus after a reset,
-- leave in its 8-bit register file what the chip holds, 0 for a register that was never written:
-- `mock_i2c_bus_get_reg` gives it.
pub get_reg-replayed :
    (h reg : ℕ) (xs : List Transfer)
    → all_to h xs ≡ true
    → reg < 32
    → get_reg reg valid (replayed xs reset) ≡ (ok, some (held (latch h reg xs)))
unfolding get_reg
get_reg-replayed h reg xs to low = ground (arith, (replayed-IsReplayed h xs to).same reg low, low)
