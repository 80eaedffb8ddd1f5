-- ===== src/MockBus/Runs.antt =====
-- Runs of transfers on the fake bus: the shape of its state, and the log as the history of its
-- registers.
use fortunelabs_mainboard_l.Prelude.{
  ℕ, ◌≡◌, false, ◌||◌, ◌==◌, List, [], ◌∷◌, Option, if◌then◌else◌, arith,
}
use fortunelabs_mainboard_l.Platform.{Err, ok, err, invalid_arg, Pointer, is_null}
use fortunelabs_mainboard_l.MockBus.State.{
  State, op_read, log_append, resolve_fault, force_next_result, force_result_on_call, delay,
}
use fortunelabs_mainboard_l.MockBus.Transfers.{
  write_shape, write, read, write_read_shape, write_read,
}

-- A call of one of the three transfer functions.
pub data Request : Type 0 where
  send : Option (List ℕ) → Request
  fetch : Pointer → ℕ → Request
  exchange : Option (List ℕ) → Pointer → ℕ → Request

-- Its error and the state that it leaves.
abbrev pub call : Request → State → Err × State
call (send bytes) s = write bytes s
call (fetch p n) s = let (r, out, s1) = read p n s in (r, s1)
call (exchange bytes p n) s = let (r, out, s1) = write_read bytes p n s in (r, s1)

-- What it does if no fault applies to it.
abbrev pub served : Request → State → Err × State
served (send bytes) s = write_shape bytes s
served (fetch p n) s =
    if is_null p || n == 0 then (err invalid_arg, s) else (ok, log_append op_read 0 0 false s)
served (exchange bytes p n) s = let (r, out, s1) = write_read_shape bytes p n s in (r, s1)

-- A test after its `mock_i2c_bus_reset`: transfers, delays and armed faults.
pub data Action : Type 0 where
  transfer : Request → Action
  arm_next : Err → Action
  arm_call : ℕ → Err → Action
  wait : ℕ → Action

abbrev pub act : Action → State → State
act (transfer q) s = (call q s).1
act (arm_next e) s = force_next_result e s
act (arm_call n e) s = force_result_on_call n e s
act (wait n) s = delay n s

unfoldable pub run : List Action → State → State
run [] s = s
run (a ∷ as') s = run as' (act a s)

pub call-served :
    (q : Request) (s : State)
    → let (forced, s1) = resolve_fault s in
      call q s ≡ elim forced [ err c ↦ (err c, s1) | ok ↦ served q s1 ]
unfolding write read write_read
call-served (send bytes) s = ground arith
call-served (fetch p n) s = ground arith
call-served (exchange bytes p n) s = ground arith
