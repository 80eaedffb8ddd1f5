-- ===== src/MockBus/Faults.antt =====
-- The faults that a test arms on the fake bus: which transfer they reach, and what it leaves.
use fortunelabs_mainboard_l.Prelude.{
  ℕ, ◌+◌, ◌^◌, ◌≤◌, ◌<◌, ◌≡◌, refl, ◌∙◌, Bool, List, [], ◌∷◌, if◌then◌else◌, ltb, ◌==◌, subst,
  length, arith, Bool-cases, inl, inr,
}
use fortunelabs_mainboard_l.Platform.{Err, ok, err, Code, Err-cases}
use fortunelabs_mainboard_l.MockBus.State.{
  State, Op, reset, log_append, resolve_fault, resolve_numbered, force_result_on_call,
}
use fortunelabs_mainboard_l.MockBus.Transfers.{write_shape, read_shape, write_read_shape}
use fortunelabs_mainboard_l.MockBus.Runs.{Request, call, served, call-served}
use fortunelabs_mainboard_l.MockBus.History.{SameStore, resolve_fault-SameStore}

-- Transfers, the oldest first.
unfoldable pub calls : List Request → State → State
calls [] s = s
calls (q ∷ qs) s = calls qs (call q s).1

-- The fault for call `n` after `k` calls: armed before it, cleared from it on.
record IsArmed (n : ℕ) (e : Err) (k : ℕ) (s : State) : Type 0 where
  next : s.forced_next ≡ ok
  counter : s.call_counter ≡ k
  armed : k < n → (s.forced_number ≡ n) × (s.forced_result ≡ e)
  cleared : n ≤ k → s.forced_number ≡ 0

-- The states that agree on the faults and the counter.
record SameFaults (s s' : State) : Type 0 where
  next : s'.forced_next ≡ s.forced_next
  counter : s'.call_counter ≡ s.call_counter
  number : s'.forced_number ≡ s.forced_number
  result : s'.forced_result ≡ s.forced_result

log_append-SameFaults :
    (op : Op) (reg v : ℕ) (wide : Bool) (s : State) → SameFaults s (log_append op reg v wide s)
unfolding log_append
log_append-SameFaults op reg v wide s = record {
  next = ground arith;
  counter = ground arith;
  number = ground arith;
  result = ground arith;
}

served-SameFaults : (q : Request) (s : State) → SameFaults s (served q s).1
unfolding write_shape read_shape write_read_shape log_append
served-SameFaults q s = record {
  next = ground arith;
  counter = ground arith;
  number = ground arith;
  result = ground arith;
}

IsArmed-SameFaults :
    {n : ℕ} {e : Err} {k : ℕ} {s s' : State} → SameFaults s s' → IsArmed n e k s → IsArmed n e k s'
IsArmed-SameFaults f h = record {
  next = f.next ∙ h.next;
  counter = f.counter ∙ h.counter;
  armed = λ few. (f.number ∙ (h.armed few).0, f.result ∙ (h.armed few).1);
  cleared = λ done. f.number ∙ h.cleared done;
}

resolve_fault-IsArmed :
    (n : ℕ) (e : Err) (k : ℕ) (s : State)
    → let (r, s1) = resolve_fault s in
      0 < n
      → k + 1 < 2 ^ 32
      → IsArmed n e k s
      → (r ≡ (if k + 1 == n then e else ok)) × IsArmed n e (k + 1) s1
unfolding resolve_fault resolve_numbered
resolve_fault-IsArmed n e k s pos small h = elim (Bool-cases (k + 1 == n)) [
  | inl now ↦
      let (number, result) = h.armed (ground (arith, now)) in
      (
        ground (arith, now, h.next, h.counter, number, result, small),
        record {
          next = ground (arith, now, h.next, h.counter, number, small);
          counter = ground (arith, now, h.next, h.counter, number, small);
          armed = λ few. absurd (ground (arith, now, few));
          cleared = λ done. ground (arith, now, h.next, h.counter, number, small);
        },
      )
  | inr other ↦ elim (Bool-cases (ltb k n)) [
    | inl before ↦
        let (number, result) = h.armed (ground (arith, before)) in
        (
          ground (arith, other, h.next, h.counter, number, small),
          record {
            next = ground (arith, other, h.next, h.counter, number, small);
            counter = ground (arith, other, h.next, h.counter, number, small);
            armed = λ few. (
              ground (arith, other, h.next, h.counter, number, small),
              ground (arith, other, h.next, h.counter, number, result, small),
            );
            cleared = λ done. absurd (ground (arith, other, before, done));
          },
        )
    | inr after ↦
        let number = h.cleared (ground (arith, after)) in
        (
          ground (arith, other, h.next, number),
          record {
            next = ground (arith, h.next, number);
            counter = ground (arith, h.next, h.counter, number, small);
            armed = λ few. absurd (ground (arith, after, few));
            cleared = λ done. ground (arith, h.next, number);
          },
        )
  ]
]

call-IsArmed :
    (n : ℕ) (e : Err) (k : ℕ) (q : Request) (s : State)
    → 0 < n
    → k + 1 < 2 ^ 32
    → IsArmed n e k s
    → IsArmed n e (k + 1) (call q s).1
call-IsArmed n e k q s pos small h =
    let d = (resolve_fault-IsArmed n e k s pos small h).1 in
    elim (Err-cases (resolve_fault s).0) [
      | inl f ↦
          rw (call-served q s, f) (IsArmed-SameFaults (served-SameFaults q (resolve_fault s).1) d)
      | inr (c, f) ↦ rw (call-served q s, f) d
    ]

calls-IsArmed :
    (n : ℕ) (e : Err) (k : ℕ) (qs : List Request) (s : State)
    → 0 < n
    → k + length qs < 2 ^ 32
    → IsArmed n e k s
    → IsArmed n e (k + length qs) (calls qs s)
unfolding calls
calls-IsArmed n e k [] s pos small h = subst (λ (j : ℕ). IsArmed n e j s) (omega arith) h
calls-IsArmed n e k (q ∷ qs) s pos small h =
    subst (λ (j : ℕ). IsArmed n e j (calls qs (call q s).1)) (omega arith)
      (calls-IsArmed n e (k + 1) qs (call q s).1 pos (omega (arith, small))
        (call-IsArmed n e k q s pos (omega (arith, small)) h))

force_result_on_call-IsArmed :
    (n : ℕ) (e : Err) → 0 < n → IsArmed n e 0 (force_result_on_call n e reset)
unfolding force_result_on_call
force_result_on_call-IsArmed n e pos = record {
  next = refl;
  counter = refl;
  armed = λ _. (refl, refl);
  cleared = λ done. absurd (omega (arith, pos, done));
}

-- After a reset and an armed fault for call `n`, exactly the transfer with that number fails with the
-- fault, whatever the transfers are: it changes neither the registers nor the log, and every other
-- does what it does on a bus without faults. Numbers are from 1, and the counter does not wrap around.
pub call-forced :
    (n : ℕ) (c : Code) (qs : List Request) (q : Request)
    → let s = calls qs (force_result_on_call n (err c) reset) in
      0 < n
      → length qs + 1 < 2 ^ 32
      → (s1 : State) × SameStore s s1
        × (call q s ≡ (if length qs + 1 == n then (err c, s1) else served q s1))
call-forced n c qs q pos small =
    let s : State = calls qs (force_result_on_call n (err c) reset) in
    let h : IsArmed n (err c) (length qs) s =
      subst (λ (j : ℕ). IsArmed n (err c) j s) (omega arith)
        (calls-IsArmed n (err c) 0 qs (force_result_on_call n (err c) reset) pos
          (omega (arith, small)) (force_result_on_call-IsArmed n (err c) pos)) in
    let r = (resolve_fault-IsArmed n (err c) (length qs) s pos small h).0 in
    ((resolve_fault s).1, resolve_fault-SameStore s, ground (arith, call-served q s, r))
