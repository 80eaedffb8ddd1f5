-- ===== src/Network/Commands.antt =====
-- The commands of the broker on their way to the actuator's queue: the network manager
-- (firmware/main/network/network_manager.c) with `app_transport_command` (firmware/main/main.c) as
-- its callback.
use fortunelabs_mainboard_l.Prelude.{
  ◌+◌, ◌≤◌, ◌≡◌, refl, sym, ap, subst, ◌∙◌, true, false, Option, none, if◌then◌else◌, List, [], ◌∷◌,
  ◌++◌, some, length, ℕ, Bool,
}
use fortunelabs_mainboard_l.Prelude.Text.{codes, eq_bytes}
use fortunelabs_mainboard_l.Platform.{Platform}
use fortunelabs_mainboard_l.Queues.{QueueApi}
use fortunelabs_mainboard_l.SensorTask.Sampling.{command_of, app_transport_command, handle_all}
use fortunelabs_mainboard_l.SensorTask.Edges.{commands_of, handle_all-queued}
use fortunelabs_mainboard_l.Network.Manager.{Callback}
use fortunelabs_mainboard_l.Network.Board.{Board, Action, run}
use fortunelabs_mainboard_l.Network.Status.{messages, hand_on, run-hand_on}

abbrev pub payloads : List (List ℕ × List ℕ) → List (List ℕ)
payloads [] = []
payloads ((topic, payload) ∷ more) = payload ∷ payloads more

-- The words of the command topic: what is asked for by each, and no other payload asks for anything.
abbrev vocabulary : List (List ℕ × Bool)
vocabulary = (codes "ON", true) ∷ (codes "OFF", false) ∷ []

abbrev meaning : List (List ℕ × Bool) → List ℕ → Option Bool
meaning [] payload = none
meaning ((word, state) ∷ more) payload =
    if eq_bytes payload word then some state else meaning more payload

-- What the payloads ask for, in order.
abbrev pub asked_by : List (List ℕ) → List Bool
asked_by [] = []
asked_by (payload ∷ more) = elim (meaning vocabulary payload) [
  | none ↦ asked_by more
  | some state ↦ state ∷ asked_by more
]

commands_of-asked_by : (ps : List (List ℕ)) → commands_of ps ≡ asked_by ps
unfolding command_of
commands_of-asked_by [] = refl
commands_of-asked_by (payload ∷ more) =
    ap
      (λ (rest : List Bool). elim (meaning vocabulary payload) [
        | none ↦ rest
        | some state ↦ state ∷ rest
      ])
      (commands_of-asked_by more)

module _ (commands : QueueApi Bool) where
  open commands use {Queue, contents, depth}

  -- `app_transport_command` as the callback that `app_main` registers; it ignores the topic.
  abbrev pub command_cb : Callback Queue
  command_cb topic payload q = app_transport_command commands payload q

  hand_on-handle_all :
      (ms : List (List ℕ × List ℕ)) (q : Queue)
      → hand_on command_cb ms q ≡ handle_all commands (payloads ms) q
  unfolding handle_all
  hand_on-handle_all [] q = refl
  hand_on-handle_all ((topic, payload) ∷ more) q =
      hand_on-handle_all more (app_transport_command commands payload q)

  -- With `app_transport_command` registered, and room in the actuator's queue for what the messages
  -- of a run ask for, the run leaves in the queue what was there and then exactly that, in the order
  -- of the messages, whatever else happens in between: on for each payload that is ON, off for each
  -- that is OFF, and nothing for any other.
  pub run-queued :
      {R : Type 0} (P : Platform) (volt_text : R → List ℕ) (as' : List (Action R)) (b : Board Queue)
      → let asked = asked_by (payloads (messages as')) in
        b.manager.cmd_cb ≡ some command_cb
        → length (contents b.manager.app) + length asked ≤ depth
        → contents (run P volt_text as' b).manager.app ≡ contents b.manager.app ++ asked
  run-queued P volt_text as' b e room =
      let ps = payloads (messages as') in
      let same = commands_of-asked_by ps in
      ap contents (
        run-hand_on P volt_text command_cb as' b e
        ∙ hand_on-handle_all (messages as') b.manager.app)
      ∙ handle_all-queued commands ps b.manager.app (
          subst (λ (bs : List Bool). length (contents b.manager.app) + length bs ≤ depth) (sym same)
            room)
      ∙ ap (λ (bs : List Bool). contents b.manager.app ++ bs) same
