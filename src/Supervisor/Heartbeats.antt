-- ===== src/Supervisor/Heartbeats.antt =====
-- What the supervisor's task publishes: every heartbeat that it builds fits its buffer.
use fortunelabs_mainboard_l.Prelude.{
  ℕ, zero, suc, ◌+◌, ◌/◌, ◌%◌, ◌≤◌, ◌<◌, ◌≡◌, ap, ◌∙◌, ◌^◌, Bool, true, ◌&&◌, List, [], ◌∷◌, ◌++◌,
  Option, none, some, leb, ltb, if◌then◌else◌, length, length-append, arith, Bool-cases, inl, inr,
}
use fortunelabs_mainboard_l.Prelude.Text.{codes}
use fortunelabs_mainboard_l.Platform.{
  Call, Trace, Platform, publish, timer_us, free_heap, min_free_heap,
}
use fortunelabs_mainboard_l.Supervisor.Task.{
  State, tick_ms, digits, decimal, heartbeat_text, task_feed, task_register, build_heartbeat,
  send_heartbeat, round, rounds, task_supervisor, log_call,
}
use fortunelabs_mainboard_l.Supervisor.Cadence.{beats}

abbrev pub published_call : Call → List (List ℕ) → List (List ℕ)
published_call (publish text) xs = text ∷ xs
published_call _ xs = xs

-- The payloads handed to the callback, the newest first.
abbrev pub published : Trace → List (List ℕ)
published [] = []
published (c ∷ t) = published_call c (published t)

length-digits : (fuel n : ℕ) (rest : List ℕ) → length (digits fuel n rest) ≤ fuel + length rest
length-digits zero n rest = omega arith
length-digits (suc fuel) n rest =
    ground (arith, length-digits fuel (n / 10) ((0x30 + n % 10) ∷ rest))

length-decimal : (n : ℕ) → length (decimal n) ≤ 20
length-decimal n = omega (arith, length-digits 20 n [])

parts-fit :
    (a b c d e f g h i : List ℕ)
    → 0 < length a
    → length a
        + length b
        + length c
        + length d
        + length e
        + length f
        + length g
        + length h
        + length i
      < 160
    → let text = a ++ b ++ c ++ d ++ e ++ f ++ g ++ h ++ i in
      (0 < length text) × (length text < 160)
parts-fit a b c d e f g h i j k =
    let text = a ++ b ++ c ++ d ++ e ++ f ++ g ++ h ++ i in
    let total : length text
        ≡ length a
          + length b
          + length c
          + length d
          + length e
          + length f
          + length g
          + length h
          + length i =
      simp length-append in
    (omega (arith, j, total), omega (arith, k, total))

-- The text of a heartbeat with an id that fits its buffer is not empty and fits the payload's.
heartbeat_text-fits :
    (id : List ℕ) (uptime free least : ℕ)
    → length id < 32
    → (0 < length (heartbeat_text id uptime free least))
      × (length (heartbeat_text id uptime free least) < 160)
heartbeat_text-fits id uptime free least h =
    parts-fit (codes "{\"device_id\":\"") id (codes "\",\"uptime_s\":") (decimal uptime)
      (codes ",\"free_heap\":") (decimal free) (codes ",\"min_free_heap\":") (decimal least)
      (codes "}") (omega arith)
      (omega (arith, h, length-decimal uptime, length-decimal free, length-decimal least))

-- A supervisor that publishes, and whose id fits its buffer.
pub record IsSending (s : State) : Type 0 where
  pub publishing : s.publishes ≡ true
  pub id_fits : length s.device_id < 32

-- A payload was handed on for every heartbeat built.
abbrev pub IsMatched : State → Type 0
IsMatched s = length (published s.trace) ≡ beats s.trace

accepted :
    (text : List ℕ)
    → 0 < length text
    → length text < 160
    → (if ltb 0 (length text) && ltb (length text) 160 then some text else none) ≡ some text
accepted text h k = ground (arith, h, k)

-- The state after the three readings of a heartbeat.
abbrev measured : State → State
measured s = log_call min_free_heap (log_call free_heap (log_call timer_us s))

module _ (P : Platform) where
  build_heartbeat-fits :
      (s : State)
      → length s.device_id < 32
      → (text : List ℕ) × (build_heartbeat P s ≡ (some text, measured s))
  unfolding build_heartbeat
  build_heartbeat-fits s h =
      let s1 = log_call timer_us s in
      let s2 = log_call free_heap s1 in
      let uptime = P.value s.trace timer_us / 1000000 in
      let free = P.value s1.trace free_heap in
      let least = P.value s2.trace min_free_heap in
      let text = heartbeat_text s.device_id uptime free least in
      let fits = heartbeat_text-fits s.device_id uptime free least h in
      (text, ap (λ (p : Option (List ℕ)). (p, measured s)) (accepted text fits.0 fits.1))

  send_heartbeat-published :
      (s : State)
      → IsSending s
      → (text : List ℕ) × (send_heartbeat P s ≡ log_call (publish text) (measured s))
  unfolding send_heartbeat
  send_heartbeat-published s h =
      let (text, e) = build_heartbeat-fits s h.id_fits in
      (
        text,
        ap
              (λ (p : Option (List ℕ) × State). elim p.0 [
                | none ↦ p.1
                | some t ↦ if p.1.publishes then log_call (publish t) p.1 else p.1
              ])
              e
            ∙ ap (λ (b : Bool). if b then log_call (publish text) (measured s) else measured s)
                h.publishing,
      )

  send_heartbeat-IsMatched :
      (s : State)
      → IsSending s
      → IsMatched s
      → let s' = send_heartbeat P s in IsSending s' × IsMatched s'
  send_heartbeat-IsMatched s h m =
      let (text, e) = send_heartbeat-published s h in
      rw e (record { publishing = h.publishing; id_fits = h.id_fits }, ap suc m)

  round-IsMatched :
      (tick since : ℕ) (s : State)
      → IsSending s
      → IsMatched s
      → let s' = (round P tick since s).1 in IsSending s' × IsMatched s'
  unfolding round task_feed
  round-IsMatched tick since s h m =
      let s1 = (task_feed P s).1 in
      let beat =
        send_heartbeat-IsMatched s1 (record { publishing = h.publishing; id_fits = h.id_fits }) m in
      elim (Bool-cases (leb s.heartbeat_period_ms ((since + tick) % 2 ^ 32))) [
        | inl e ↦ rw e (record { publishing = beat.0.publishing; id_fits = beat.0.id_fits }, beat.1)
        | inr e ↦ rw e (record { publishing = h.publishing; id_fits = h.id_fits }, m)
      ]

  rounds-IsMatched :
      (n tick since : ℕ) (s : State)
      → IsSending s
      → IsMatched s
      → IsMatched (rounds P n tick since s).1
  unfolding rounds
  rounds-IsMatched zero tick since s h m = m
  rounds-IsMatched (suc n) tick since s h m =
      let (h1, m1) = round-IsMatched tick since s h m in
      let (since1, s1) = round P tick since s in rounds-IsMatched n tick since1 s1 h1 m1

  -- Every heartbeat that the supervisor's task builds fits the payload's buffer: as many payloads
  -- are handed to the callback as heartbeats are built.
  pub task_supervisor-IsMatched :
      (n : ℕ) (s : State) → IsSending s → IsMatched s → IsMatched (task_supervisor P n s).1
  unfolding task_supervisor task_register
  task_supervisor-IsMatched n s h m =
      rounds-IsMatched n (tick_ms s) s.heartbeat_period_ms (task_register P s).1
        (record { publishing = h.publishing; id_fits = h.id_fits }) m
