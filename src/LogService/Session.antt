-- ===== src/LogService/Session.antt =====
-- Runs of the log facade from the start of the program, and what a second start would do.
use fortunelabs_mainboard_l.Prelude.{
  ℕ, zero, suc, ◌≡◌, refl, ap, Bool, true, false, List, [], ◌∷◌, Option, none, some, arith,
  Bool-cases, Option-cases, inl, inr,
}
use fortunelabs_mainboard_l.Platform.{ok}
use fortunelabs_mainboard_l.Queues.{QueueApi}
use fortunelabs_mainboard_l.LogService.Facade.{
  State, uart, hook, copied, left_by, log_vprintf, log_line, log_all, deliver, forward, init,
  init_parts, register_sink, unregister_sink, set_level,
}
use fortunelabs_mainboard_l.LogService.Serial.{IsWritable, direct, hooked, log_all-serial}

-- What happens to a facade that was started: a line is logged, the forwarder makes a round in which
-- the sink logs some lines itself, and the calls of the other operations.
pub data Action : Type 0 where
  log : List ℕ → Action
  forward_round : List (List ℕ) → Action
  register : Bool → Action
  unregister : Action
  adjust : Option (List ℕ) → ℕ → Action

module _ (api : QueueApi (List ℕ)) where
  abbrev pub act : ℕ → Action → State api → Option (State api)
  act fuel (log text) s = log_all api fuel (text ∷ []) s
  act fuel (forward_round own) s = forward api fuel own s
  act fuel (register given) s = some (register_sink api given s).1
  act fuel unregister s = some (unregister_sink api s)
  act fuel (adjust tag l) s = some (set_level api tag l s)

  unfoldable pub run : ℕ → List Action → State api → Option (State api)
  run fuel [] s = some s
  run fuel (a ∷ as') s = elim (act fuel a s) [ none ↦ none | some s1 ↦ run fuel as' s1 ]

  abbrev Returns : Option (State api) → Type 0
  Returns r = (s' : State api) × (r ≡ some s') × IsWritable api s'

  deliver-Returns :
      (fuel : ℕ) (line : List ℕ) (own : List (List ℕ)) (s : State api)
      → IsWritable api s
      → Returns (deliver api (suc fuel) line own s)
  unfolding deliver
  deliver-Returns fuel line own s w =
      let called : State api = record s { forwarding = true; sunk = line ∷ s.sunk } in
      let (s1, logged, out, w1) = log_all-serial api fuel own called w in
      elim (Bool-cases s.has_sink) [
        | inl e ↦ (record s1 { forwarding = false }, ground (arith, e, logged), w1)
        | inr e ↦ (s, ground (arith, e), w)
      ]

  forward-Returns :
      (fuel : ℕ) (own : List (List ℕ)) (s : State api)
      → IsWritable api s
      → Returns (forward api (suc fuel) own s)
  unfolding forward
  forward-Returns fuel own s w = elim (Option-cases s.queue) [
    | inl e ↦ (s, ground (arith, e), w)
    | inr (q, e) ↦ elim (Option-cases (api.receive q).0) [
      | inl got ↦ (s, ground (arith, e, got), w)
      | inr (line, got) ↦
          let left : State api = record s { queue = some (api.receive q).1 } in
          let (s', done, w') = deliver-Returns fuel line own left w in
          (s', ground (arith, e, got, done), w')
    ]
  ]

  act-Returns :
      (fuel : ℕ) (a : Action) (s : State api) → IsWritable api s → Returns (act (suc fuel) a s)
  unfolding register_sink unregister_sink set_level
  act-Returns fuel (log text) s w =
      let (s', done, out, w') = log_all-serial api fuel (text ∷ []) s w in (s', done, w')
  act-Returns fuel (forward_round own) s w = forward-Returns fuel own s w
  act-Returns fuel (register given) s w = elim (Bool-cases s.initialized) [
    | inl e ↦ (record s { has_sink = given }, ground (arith, e), w)
    | inr e ↦ (s, ground (arith, e), w)
  ]
  act-Returns fuel unregister s w = (record s { has_sink = false }, refl, w)
  act-Returns fuel (adjust tag l) s w = (set_level api tag l s, refl, w)

  run-Returns :
      (fuel : ℕ) (as' : List Action) (s : State api)
      → IsWritable api s
      → Returns (run (suc fuel) as' s)
  unfolding run
  run-Returns fuel [] s w = (s, refl, w)
  run-Returns fuel (a ∷ as') s w =
      let (s1, one, w1) = act-Returns fuel a s w in
      let (s', rest, w') = run-Returns fuel as' s1 w1 in (s', rw (run, one) rest, w')

  pub init-IsWritable :
      (level : ℕ) (made : Option api.Queue) (started : Bool) (s : State api)
      → s.writer ≡ uart
      → IsWritable api (init api level made started s).1
  unfolding init init_parts
  init-IsWritable level none started s w = direct w
  init-IsWritable level (some q) false s w = direct w
  init-IsWritable level (some q) true s w = hooked refl (ap some w)

  -- After one `system_log_init` on a writer of the UART, whatever it returns, every run of logged
  -- lines, rounds of the forwarder and calls of the other operations returns, with fuel for one
  -- call of the hook; the lines that a sink logs are part of it. Logging then still ends at the UART.
  pub init-returns :
      (fuel level : ℕ) (made : Option api.Queue) (started : Bool) (as' : List Action)
      (s : State api)
      → s.writer ≡ uart
      → (s' : State api) × (run (suc fuel) as' (init api level made started s).1 ≡ some s')
        × IsWritable api s'
  init-returns fuel level made started as' s w =
      run-Returns fuel as' (init api level made started s).1
        (init-IsWritable level made started s w)

  log_vprintf-stuck :
      (fuel : ℕ) (text : List ℕ) (s : State api)
      → s.orig ≡ some hook
      → log_vprintf api fuel text s ≡ none
  unfolding log_vprintf
  log_vprintf-stuck zero text s o = refl
  log_vprintf-stuck (suc fuel) text s o =
      rw (log_vprintf, o) (ap (copied api text) (log_vprintf-stuck fuel text s o))

  -- After two `system_log_init` in a row that return ESP_OK, the line that is logged next never
  -- returns, whatever the fuel: the second saves the hook itself as the writer to call.
  pub init_twice :
      (fuel level level' : ℕ) (made made' : Option api.Queue) (started started' : Bool)
      (text : List ℕ) (s : State api)
      → let (r, s1) = init api level made started s in
        let (r', s2) = init api level' made' started' s1 in
        r ≡ ok → r' ≡ ok → log_line api fuel text s2 ≡ none
  unfolding init init_parts log_line
  init_twice fuel level level' none made' started started' text s o o' = absurd (cc o)
  init_twice fuel level level' (some q) made' false started' text s o o' = absurd (cc o)
  init_twice fuel level level' (some q) none true started' text s o o' = absurd (cc o')
  init_twice fuel level level' (some q) (some q') true false text s o o' = absurd (cc o')
  init_twice fuel level level' (some q) (some q') true true text s o o' = ap (left_by api) (
      log_vprintf-stuck fuel text
        (init api level' (some q') true (init api level (some q) true s).1).1 refl)
