-- ===== src/LogService/Forwarding.antt =====
-- The way of a log line from the hook to the sink.
use fortunelabs_mainboard_l.Prelude.{
  length-snoc, append_assoc, ℕ, zero, suc, ◌≤◌, ◌<◌, ◌≡◌, refl, sym, ap, ◌∙◌, true, false, List, [],
  ◌∷◌, ◌++◌, some, if◌then◌else◌, length, take, arith, ltb, Bool-cases, inl, inr,
}
use fortunelabs_mainboard_l.Prelude.Text.{is_empty, truncate}
use fortunelabs_mainboard_l.Queues.{QueueApi}
use fortunelabs_mainboard_l.LogService.Facade.{
  State, uart, hook, line_max, queue_line, copy_line, log_vprintf, log_line, log_all, end_delivery,
  deliver, forward, forward_all,
}
use fortunelabs_mainboard_l.LogService.Serial.{newest_first}

-- What is queued of the lines that are logged: each that is not empty, cut to its buffer.
abbrev pub cut_lines : List (List ℕ) → List (List ℕ)
cut_lines [] = []
cut_lines (t ∷ ts) = if is_empty t then cut_lines ts else truncate line_max t ∷ cut_lines ts

take_prefix : {A : Type 0} (xs ys : List A) (n : ℕ) → n ≡ length xs → take n (xs ++ ys) ≡ xs
take_prefix [] ys zero h = refl
take_prefix [] ys (suc n) h = absurd (omega (arith, h))
take_prefix (x ∷ xs) ys zero h = absurd (omega (arith, h))
take_prefix (x ∷ xs) ys (suc n) h = ap (λ zs. x ∷ zs) (take_prefix xs ys n (omega (arith, h)))

take_short : {A : Type 0} (xs : List A) (n : ℕ) → length xs ≤ n → take n (xs ++ []) ≡ xs
take_short [] zero h = refl
take_short [] (suc n) h = refl
take_short (x ∷ xs) zero h = absurd (omega (arith, h))
take_short (x ∷ xs) (suc n) h = ap (λ zs. x ∷ zs) (take_short xs n (omega (arith, h)))

ltb-holds : {a b : ℕ} → ltb a b ≡ true → a < b
ltb-holds h = ground (arith, h)

module _ (api : QueueApi (List ℕ)) where
  open api use {Queue, contents, depth, send, receive}

  -- A started facade with a sink, which is not delivering a line; `base` gives the levels and the
  -- deleted queues.
  abbrev pub idle : State api → Queue → List (List ℕ) → List (List ℕ) → State api
  idle base q sunk serial = record base {
    queue = some q;
    orig = some uart;
    has_sink = true;
    forwarding = false;
    initialized = true;
    writer = hook;
    sunk = sunk;
    serial = serial;
  }

  -- A send keeps the bound of the queue, and the first `depth` of the lines in order.
  sent_line :
      (line : List ℕ) (rest : List (List ℕ)) (q : Queue)
      → length (contents q) ≤ depth
      → let q1 = (send line q).1 in
        (length (contents q1) ≤ depth)
        × (take depth (contents q1 ++ rest) ≡ take depth (contents q ++ (line ∷ rest)))
  sent_line line rest q h = elim (Bool-cases (ltb (length (contents q)) depth)) [
    | inl room ↦
        let (_, more) = api.send_room line q (ground (arith, room)) in
        (
          omega (arith, ap length more, length-snoc (contents q) line, ltb-holds room),
          ap (λ zs. take depth (zs ++ rest)) more
              ∙ ap (take depth) (append_assoc (contents q) (line ∷ []) rest),
        )
    | inr full ↦
        let size : depth ≡ length (contents q) = ground (arith, full, h) in
        let (_, kept) = api.send_full line q (omega (arith, size)) in
        (
          omega (arith, ap length kept, h),
          ap (λ zs. take depth (zs ++ rest)) kept
              ∙ take_prefix (contents q) rest depth size
              ∙ sym (take_prefix (contents q) (line ∷ rest) depth size),
        )
  ]

  log_line-idle :
      (fuel : ℕ) (text : List ℕ) (base : State api) (q : Queue) (sunk serial : List (List ℕ))
      → log_line api (suc fuel) text (idle base q sunk serial)
        ≡ some (
            if is_empty text
            then idle base q sunk (text ∷ serial)
            else idle base (send (truncate line_max text) q).1 sunk (text ∷ serial))
  unfolding log_line log_vprintf copy_line queue_line
  log_line-idle fuel text base q sunk serial = refl

  -- What logging some lines leaves: those that fit in the queue, and all of them on the UART.
  log_all-queued :
      (fuel : ℕ) (ts : List (List ℕ)) (base : State api) (q : Queue) (sunk serial : List (List ℕ))
      → length (contents q) ≤ depth
      → (q' : Queue) × (log_all api (suc fuel) ts (idle base q sunk serial)
          ≡ some (idle base q' sunk (newest_first ts serial)))
        × (contents q' ≡ take depth (contents q ++ cut_lines ts))
  unfolding log_all
  log_all-queued fuel [] base q sunk serial h = (q, refl, sym (take_short (contents q) depth h))
  log_all-queued fuel (t ∷ ts) base q sunk serial h = elim (Bool-cases (is_empty t)) [
    | inl e ↦
        let (q', same, left) = log_all-queued fuel ts base q sunk (t ∷ serial) h in
        (q', rw (log_all, log_line-idle fuel t base q sunk serial, e) same, rw e left)
    | inr e ↦
        let q1 = (send (truncate line_max t) q).1 in
        let (fits, kept) = sent_line (truncate line_max t) (cut_lines ts) q h in
        let (q', same, left) = log_all-queued fuel ts base q1 sunk (t ∷ serial) fits in
        (q', rw (log_all, log_line-idle fuel t base q sunk serial, e) same, rw e (left ∙ kept))
  ]

  -- What a sink logs while a line is delivered is written to the UART and never enters the queue.
  log_all-silent :
      (fuel : ℕ) (own : List (List ℕ)) (base : State api) (q : Queue) (sunk serial : List (List ℕ))
      → log_all api (suc fuel) own (record (idle base q sunk serial) { forwarding = true })
        ≡ some (record (idle base q sunk (newest_first own serial)) { forwarding = true })
  unfolding log_all log_line log_vprintf copy_line
  log_all-silent fuel [] base q sunk serial = refl
  log_all-silent fuel (t ∷ ts) base q sunk serial = log_all-silent fuel ts base q sunk (t ∷ serial)

  forward-idle :
      (fuel : ℕ) (own : List (List ℕ)) (base : State api) (q : Queue) (x : List ℕ)
      (sunk serial : List (List ℕ))
      → (receive q).0 ≡ some x
      → forward api (suc fuel) own (idle base q sunk serial)
        ≡ some (idle base (receive q).1 (x ∷ sunk) (newest_first own serial))
  unfolding forward deliver
  forward-idle fuel own base q x sunk serial got =
      rw got (ap (end_delivery api) (log_all-silent fuel own base (receive q).1 (x ∷ sunk) serial))

  forward_all-drained :
      (fuel : ℕ) (xs own : List (List ℕ)) (base : State api) (q : Queue)
      (sunk serial : List (List ℕ))
      → contents q ≡ xs
      → (s : State api) × (forward_all api (suc fuel) (length xs) own (idle base q sunk serial)
          ≡ some s)
        × (s.sunk ≡ newest_first xs sunk)
        × (s.forwarding ≡ false)
        × ((left : Queue) × (s.queue ≡ some left) × (contents left ≡ []))
  unfolding forward_all
  forward_all-drained fuel [] own base q sunk serial e =
      (idle base q sunk serial, refl, refl, refl, (q, refl, e))
  forward_all-drained fuel (x ∷ xs) own base q sunk serial e =
      let (got, left) = api.receive_next q x xs e in
      let (s, done, sunk_eq, ended, empty) =
        forward_all-drained fuel xs own base (receive q).1 (x ∷ sunk) (newest_first own serial)
          left in
      (
        s,
        rw (forward_all, forward-idle fuel own base q x sunk serial got) done,
        sunk_eq,
        ended,
        empty,
      )

  -- The lines that are logged while a sink is registered reach it in the order of their logging:
  -- of those waiting and those logged, the ones that are not empty, cut to the line buffer, as many
  -- as the queue holds and no other, whatever the sink itself logs while it is called. After that
  -- the queue is empty. Every logged line is on the UART before. The queue starts within its bound,
  -- and a fuel of one call of the hook is enough.
  pub log_all-delivered :
      (fuel : ℕ) (ts own : List (List ℕ)) (base : State api) (q : Queue)
      (sunk serial : List (List ℕ))
      → length (contents q) ≤ depth
      → let lines = take depth (contents q ++ cut_lines ts) in
        (s1 s2 : State api) × (log_all api (suc fuel) ts (idle base q sunk serial) ≡ some s1)
        × (s1.serial ≡ newest_first ts serial)
        × (forward_all api (suc fuel) (length lines) own s1 ≡ some s2)
        × (s2.sunk ≡ newest_first lines sunk)
        × (s2.forwarding ≡ false)
        × ((left : Queue) × (s2.queue ≡ some left) × (contents left ≡ []))
  log_all-delivered fuel ts own base q sunk serial h =
      let (q1, same, held) = log_all-queued fuel ts base q sunk serial h in
      let (s2, done, sunk_eq, ended, empty) =
        forward_all-drained fuel (take depth (contents q ++ cut_lines ts)) own base q1 sunk
          (newest_first ts serial) held in
      (idle base q1 sunk (newest_first ts serial), s2, same, refl, done, sunk_eq, ended, empty)
