-- ===== src/Queues.antt =====
-- The FreeRTOS queues that the firmware uses, whose code is not in the repository: an interface of
-- non-blocking operations, with what the documentation of FreeRTOS promises of them.
use fortunelabs_mainboard_l.Prelude.{
  ℕ, ◌≤◌, ◌<◌, ◌≡◌, sym, ◌∙◌, Bool, true, false, List, [], ◌∷◌, ◌++◌, Option, none, some, length,
  if◌then◌else◌, ltb, Bool-cases, inl, inr, arith, append_nil,
}

-- `xQueueSend` without a wait (pdTRUE or errQUEUE_FULL) and `xQueueReceive`.
pub record QueueApi (A : Type 0) : Type 1 where
  pub Queue : Type 0
  pub contents : Queue → List A
  pub depth : ℕ
  pub send : A → Queue → Bool × Queue
  pub receive : Queue → Option A × Queue
  pub send_room :
      (a : A) (q : Queue)
      → length (contents q) < depth
      → ((send a q).0 ≡ true) × (contents (send a q).1 ≡ contents q ++ (a ∷ []))
  pub send_full :
      (a : A) (q : Queue)
      → depth ≤ length (contents q)
      → ((send a q).0 ≡ false) × (contents (send a q).1 ≡ contents q)
  pub receive_next :
      (q : Queue) (a : A) (rest : List A)
      → contents q ≡ a ∷ rest
      → ((receive q).0 ≡ some a) × (contents (receive q).1 ≡ rest)
  -- Without an element, `xQueueReceive` gives none.
  pub receive_empty : (q : Queue) → contents q ≡ [] → (receive q).0 ≡ none

module _ {A : Type 0} (api : QueueApi A) where
  open api use {Queue, contents, depth, send, receive}

  -- What a queue takes of an element that is sent: the element, or nothing if it is full.
  abbrev pub taken_in : A → Queue → List A
  taken_in a q = if ltb (length (contents q)) depth then a ∷ [] else []

  pub contents-send : (a : A) (q : Queue) → contents (send a q).1 ≡ contents q ++ taken_in a q
  contents-send a q = elim (Bool-cases (ltb (length (contents q)) depth)) [
    | inl room ↦ rw room ((api.send_room a q (ground (arith, room))).1)
    | inr full ↦
        rw full ((api.send_full a q (ground (arith, full))).1 ∙ sym (append_nil (contents q)))
  ]
