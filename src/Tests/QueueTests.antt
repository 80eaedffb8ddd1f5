-- ===== src/Tests/QueueTests.antt =====
-- A queue as a list, and the log facade and the sensor task on it.
use fortunelabs_mainboard_l.Prelude.{
  ℕ, ◌≡◌, ◌<◌, ◌≤◌, refl, Bool, true, false, List, [], ◌∷◌, ◌++◌, Option, none, some, if◌then◌else◌,
  length, ltb, take, arith,
}
use fortunelabs_mainboard_l.Prelude.Text.{codes}
use fortunelabs_mainboard_l.Queues.{QueueApi}
use fortunelabs_mainboard_l.SensorTask.Sampling.{State, sample, task_sensor}
use fortunelabs_mainboard_l.SensorTask.Edges.{lost_edge}
use fortunelabs_mainboard_l.LogService.Facade as Log
use fortunelabs_mainboard_l.LogService.Facade.{uart, log_line, init}
use fortunelabs_mainboard_l.LogService.Serial.{newest_first, IsWritable}
use fortunelabs_mainboard_l.LogService.Session.{
  Action, log, forward_round, register, adjust, run, init-returns, init_twice,
}
use fortunelabs_mainboard_l.LogService.Forwarding.{cut_lines}

module _ {A : Type 0} where
  abbrev pub next_of : List A → Option A × List A
  next_of [] = (none, [])
  next_of (a ∷ q) = (some a, q)

  abbrev pub send_to : ℕ → A → List A → Bool × List A
  send_to n a q = if ltb (length q) n then (true, q ++ (a ∷ [])) else (false, q)

  pub send_to-room :
      (n : ℕ) (a : A) (q : List A)
      → length q < n
      → ((send_to n a q).0 ≡ true) × ((send_to n a q).1 ≡ q ++ (a ∷ []))
  send_to-room n a q h = ground (arith, h)

  pub send_to-full :
      (n : ℕ) (a : A) (q : List A)
      → n ≤ length q
      → ((send_to n a q).0 ≡ false) × ((send_to n a q).1 ≡ q)
  send_to-full n a q h = ground (arith, h)

  pub next_of-next :
      (q : List A) (a : A) (rest : List A)
      → q ≡ a ∷ rest
      → ((next_of q).0 ≡ some a) × ((next_of q).1 ≡ rest)
  next_of-next q a rest e = rw e (refl, refl)

  pub next_of-empty : (q : List A) → q ≡ [] → (next_of q).0 ≡ none
  next_of-empty q e = rw e refl

-- A queue of at most `n` elements.
abbrev pub list_queue : (A : Type 0) → ℕ → QueueApi A
list_queue A n = record {
  Queue = List A;
  contents = λ q. q;
  depth = n;
  send = send_to n;
  receive = next_of;
  send_room = send_to-room n;
  send_full = send_to-full n;
  receive_next = next_of-next;
  receive_empty = next_of-empty;
}

abbrev pub lines : QueueApi (List ℕ)
lines = list_queue (List ℕ) 2

two_delivered :
    newest_first (take 2 (cut_lines (codes "a" ∷ codes "b" ∷ codes "c" ∷ []))) []
    ≡ codes "b" ∷ codes "a" ∷ []
two_delivered = refl

-- The facade of a program that has just begun.
abbrev pub fresh_log : Log.State lines
fresh_log = record {
  queue = none;
  orig = none;
  has_sink = false;
  forwarding = false;
  initialized = false;
  writer = uart;
  sunk = [];
  serial = [];
  levels = [];
  deleted = [];
}

abbrev log_actions : List Action
log_actions =
    log (codes "a")
    ∷ register true
    ∷ log (codes "b")
    ∷ forward_round (codes "c" ∷ [])
    ∷ adjust none 2
    ∷ []

init-returns_example :
    (s' : Log.State lines) × (run lines 1 log_actions (init lines 3 (some []) true fresh_log).1
      ≡ some s')
    × IsWritable lines s'
init-returns_example = init-returns lines 0 3 (some []) true log_actions fresh_log refl

init_twice_example :
    log_line lines 100
      (codes "a")
      (init lines 3 (some []) true (init lines 3 (some []) true fresh_log).1).1
    ≡ none
unfolding init Log.init_parts
init_twice_example =
    init_twice lines 100 3 3 (some []) (some []) true true (codes "a") fresh_log refl refl

-- Readings in tenths of a volt.
abbrev pub over : ℕ → Bool
over r = ltb 25 r

abbrev pub volt_text : ℕ → List ℕ
volt_text r = r ∷ []

abbrev dark_sensor : State (list_queue Bool 5) over volt_text (list_queue _ 10)
dark_sensor = record { last_led_state = false; mailbox = none; messages = []; actuator = [] }

abbrev full_sensor : State (list_queue Bool 1) over volt_text (list_queue _ 10)
full_sensor = record {
  last_led_state = false;
  mailbox = none;
  messages = [];
  actuator = false ∷ [];
}

lost_edge_example :
    let s1 = sample (list_queue Bool 1) over volt_text (list_queue _ 10) (some 30) full_sensor in
    (s1.last_led_state ≡ true)
    × (s1.actuator ≡ false ∷ [])
    × ((task_sensor
          (list_queue Bool 1)
          over
          volt_text
          (list_queue _ 10)
          (some 31 ∷ none ∷ some 40 ∷ [])
          (record s1 { actuator = [] })).actuator
        ≡ [])
unfolding sample mathlib.Core.Bool.xor
lost_edge_example =
    lost_edge (list_queue Bool 1) over volt_text (list_queue _ 10) 30
      (some 31 ∷ none ∷ some 40 ∷ []) [] full_sensor refl (omega arith) refl
