-- ===== src/Tests/MockTests.antt =====
-- The fake bus on concrete inputs.
use fortunelabs_mainboard_l.Prelude.{
  ◌+◌, ◌≡◌, refl, List, [], ◌∷◌, none, some, if◌then◌else◌, ◌==◌, length, replicate, arith,
}
use fortunelabs_mainboard_l.Platform.{ok, err, timeout, valid, Transfer, transmit, transmit_receive}
use fortunelabs_mainboard_l.Mcp23017.Latches.{latch}
use fortunelabs_mainboard_l.MockBus.State.{
  State, reset, get_reg, force_result_on_call, force_next_result, delay, log_append, resolve_fault,
  resolve_numbered,
}
use fortunelabs_mainboard_l.MockBus.Transfers.{
  write, write_shape, write_read, write_read_shape, read_shape,
}
use fortunelabs_mainboard_l.MockBus.Runs.{
  send, fetch, exchange, call, served, Action, transfer, arm_next, arm_call, wait, run,
}
use fortunelabs_mainboard_l.MockBus.History.{SameStore, replay, apply8, apply16, run-replay}
use fortunelabs_mainboard_l.MockBus.Chip.{replayed, all_to, held, get_reg-replayed}
use fortunelabs_mainboard_l.MockBus.Faults.{calls, call-forced}

-- A write of register 3, a read of it, and a write of another.
abbrev seen : List Transfer
seen = transmit 7 (9 ∷ 1 ∷ []) ∷ transmit_receive 7 (3 ∷ []) 1 ∷ transmit 7 (3 ∷ 0xA5 ∷ []) ∷ []

get_reg-replayed_example :
    get_reg 3 valid (replayed seen reset) ≡ (ok, some (held (latch 7 3 seen)))
unfolding all_to
get_reg-replayed_example = get_reg-replayed 7 3 seen refl (omega arith)

call-forced_example :
    let s =
      calls
        (send (some (3 ∷ 0xA5 ∷ [])) ∷ send none ∷ [])
        (force_result_on_call 3 (err timeout) reset) in
    (s1 : State) × SameStore s s1
    × (call (fetch valid 1) s
        ≡ (if 2 + 1 == 3 then (err timeout, s1) else served (fetch valid 1) s1))
call-forced_example =
    call-forced 3 timeout (send (some (3 ∷ 0xA5 ∷ [])) ∷ send none ∷ []) (fetch valid 1)
      (omega arith) (omega arith)

abbrev session : List Action
session =
    transfer (send (some (3 ∷ 0xA5 ∷ [])))
    ∷ arm_next (err timeout)
    ∷ transfer (send (some (3 ∷ 0 ∷ [])))
    ∷ wait 9
    ∷ arm_call 4 (err timeout)
    ∷ transfer (exchange (some (3 ∷ [])) valid 1)
    ∷ []

run-replay_example :
    let s = run session reset in
    (s.regs8 ≡ replay apply8 s.log (replicate 32 0))
    × (s.regs16 ≡ replay apply16 s.log (replicate 8 0))
    × (length s.regs8 ≡ 32)
    × (length s.regs16 ≡ 8)
unfolding run write write_shape write_read write_read_shape read_shape resolve_fault
    resolve_numbered log_append force_next_result force_result_on_call delay
run-replay_example = run-replay session (omega arith)
