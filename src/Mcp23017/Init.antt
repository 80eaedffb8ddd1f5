-- ===== src/Mcp23017/Init.antt =====
-- `mcp23017_init`: what it writes to the chip, and when the driver is ready after it.
use fortunelabs_mainboard_l.Prelude.{
  ◌⊎◌, ℕ, ◌≡◌, refl, Bool, true, false, ◌&&◌, List, some, arith, Bool-cases, inl, inr, not, ◌||◌,
  ltb,
}
use fortunelabs_mainboard_l.Platform.{
  Code, ok, err, is_ok, Pointer, valid, is_null, Platform, Transfer, Err-cases,
}
use fortunelabs_mainboard_l.Bus.State.{Sys}
use fortunelabs_mainboard_l.Bus.Lifecycle.{add_device}
use fortunelabs_mainboard_l.Bus.Traces.{acked}
use fortunelabs_mainboard_l.Mcp23017.Device.{
  Config, Device, State, init_registers, init_shadow, init, addr_base, addr_max,
}
use fortunelabs_mainboard_l.Mcp23017.Latches.{latch}
use fortunelabs_mainboard_l.Mcp23017.Sync.{
  init_writes, transmit_all, write_then, write_then-ok, write_then-err,
  init_registers-eq-write_then, IsSynced,
}

add_device-acked :
    (P : Platform) (p q : Pointer) (a hz o : ℕ) (s : Sys)
    → acked P (add_device P p a hz q o s).2.trace ≡ acked P s.trace
unfolding add_device
add_device-acked P p q a hz o s = ground arith

-- After the eight writes every shadowed register holds its value, whatever it held before.
init_latches :
    (h : ℕ) (cfg : Config) (xs : List Transfer)
    → let ys = transmit_all h (init_writes cfg) xs in
      (latch h 0 ys ≡ some (cfg.dir_a))
      × (latch h 1 ys ≡ some (cfg.dir_b))
      × (latch h 20 ys ≡ some 0)
      × (latch h 21 ys ≡ some 0)
unfolding latch
init_latches h cfg xs = ground arith

module _ (P : Platform) where
  -- What a successful initialization leaves: the eight writes were acknowledged, in order, and the
  -- driver is ready with its shadow registers equal to the chip's.
  pub record IsStarted (cfg : Config) (s s' : State) : Type 0 where
    pub sent :
        acked P s'.sys.trace
        ≡ transmit_all s'.dev.dev_handle (init_writes cfg) (acked P s.sys.trace)
    pub ready : s'.dev.is_initialized ≡ true
    pub synced : IsSynced P s'

  init_writes-IsSynced :
      (cfg : Config) (d : Device) (xs : List Transfer) (s : State)
      → s.dev ≡ init_shadow cfg d
      → acked P s.sys.trace ≡ transmit_all d.dev_handle (init_writes cfg) xs
      → IsSynced P s
  init_writes-IsSynced cfg d xs s dev sent =
      let (a, b, c, e) = init_latches d.dev_handle cfg xs in
      record {
        dir_a = λ _. rw (sent, dev) a;
        dir_b = λ _. rw (sent, dev) b;
        olat_a = λ _. rw (sent, dev) c;
        olat_b = λ _. rw (sent, dev) e;
      }

  init_registers-IsStarted :
      (cfg : Config) (s : State)
      → let (r, s') = init_registers P cfg s in r ≡ ok → IsStarted cfg s s'
  init_registers-IsStarted cfg s = rw (init_registers-eq-write_then P cfg s) (λ e.
      let (dev, sent) = write_then-ok P (init_writes cfg) (init_shadow cfg) s e in
      let s' = (write_then P (init_writes cfg) (init_shadow cfg) s).1 in
      record {
        sent = rw dev sent;
        ready = rw dev;
        synced = init_writes-IsSynced cfg s.dev (acked P s.sys.trace) s' dev sent;
      })

  init_registers-failed :
      (cfg : Config) (s : State)
      → let (r, s') = init_registers P cfg s in is_ok r ≡ false → s'.dev ≡ s.dev
  init_registers-failed cfg s =
      rw (init_registers-eq-write_then P cfg s)
        (λ e. write_then-err P (init_writes cfg) (init_shadow cfg) s e)

  -- The arguments that the initialization accepts.
  abbrev pub is_accepted : Pointer → Pointer → Config → Bool
  is_accepted p q cfg =
      not (is_null p || is_null q || is_null cfg.bus)
      && not (ltb cfg.address addr_base || ltb addr_max cfg.address)

  -- The three ways in which the initialization ends.
  init_lem :
      (p q : Pointer) (cfg : Config) (s : State)
      → let (r, s') = init P p q cfg s in
        (is_accepted p q cfg ≡ false → (r ≡ err Code.invalid_arg) × (s' ≡ s))
        × (r ≡ ok → IsStarted cfg s s')
        × (is_accepted p q cfg ≡ true → is_ok r ≡ false → s'.dev.is_initialized ≡ false)
  unfolding init
  init_lem p q cfg s =
      let d = record (s.dev) {
        bus_handle = cfg.bus;
        dev_addr = cfg.address;
        is_initialized = false;
      } in
      let add = add_device P cfg.bus cfg.address cfg.scl_hz valid d.dev_handle s.sys in
      let s1 : State = record { dev = record d { dev_handle = add.1 }; sys = add.2 } in
      let same = add_device-acked P cfg.bus valid cfg.address cfg.scl_hz d.dev_handle s.sys in
      elim (Bool-cases (is_null p || is_null q || is_null cfg.bus)) [
        | inl a ↦ rw a ((λ _. (refl, refl)), (λ e. absurd (cc e)), λ e f. absurd (cc e))
        | inr a ↦ rw a (elim (Bool-cases (ltb cfg.address addr_base || ltb addr_max cfg.address)) [
          | inl b ↦ rw b ((λ _. (refl, refl)), (λ e. absurd (cc e)), λ e f. absurd (cc e))
          | inr b ↦ rw b (elim (Err-cases add.0) [
            | inl o ↦
                rw (o, init)
                  (
                    (λ e. absurd (cc e)),
                    (λ e.
                        let started = init_registers-IsStarted cfg s1 e in
                        record {
                          sent = rw (← same) (started.sent);
                          ready = started.ready;
                          synced = started.synced;
                        }),
                    λ _ f. rw (init_registers-failed cfg s1 f) refl,
                  )
            | inr (c, o) ↦ rw (o, init) ((λ e. absurd (cc e)), (λ e. absurd (cc e)), λ _ _. refl)
          ])
        ])
      ]

  -- `mcp23017_init` returns ESP_OK only after its eight register writes were acknowledged, in order
  -- and with nothing else, with the driver ready and its shadow registers equal to the chip's.
  pub init-IsStarted :
      (p q : Pointer) (cfg : Config) (s : State)
      → (init P p q cfg s).0 ≡ ok
      → IsStarted cfg s (init P p q cfg s).1
  init-IsStarted p q cfg s = (init_lem p q cfg s).1

  -- After an error of `mcp23017_init` either its arguments were refused with ESP_ERR_INVALID_ARG
  -- and nothing has changed, or the driver is not ready.
  pub init_error :
      (p q : Pointer) (cfg : Config) (s : State)
      → is_ok (init P p q cfg s).0 ≡ false
      → let (r, s') = init P p q cfg s in
        (((r ≡ err Code.invalid_arg) × (s' ≡ s)) ⊎ (s'.dev.is_initialized ≡ false))
  init_error p q cfg s e = elim (Bool-cases (is_accepted p q cfg)) [
    | inl a ↦ inr ((init_lem p q cfg s).2 a e)
    | inr a ↦ inl ((init_lem p q cfg s).0 a)
  ]
