-- ===== src/MockBus/State.antt =====
-- firmware/test/mock_i2c_bus.c: the state of the fake bus and the calls by which a test controls it.
use fortunelabs_mainboard_l.Prelude.{
  ℕ, ◌+◌, ◌%◌, ◌^◌, Bool, true, false, not, ◌&&◌, ◌||◌, List, [], ◌∷◌, ◌++◌, Option, none, some,
  if◌then◌else◌, ◌==◌, leb, length, get_elem?, get_or, set, replicate,
}
use fortunelabs_mainboard_l.Platform.{Err, ok, err, invalid_arg, Pointer, is_null}

abbrev pub reg8_count : ℕ
reg8_count = 32

abbrev pub reg16_count : ℕ
reg16_count = 8

abbrev pub log_max : ℕ
log_max = 64

-- `mock_i2c_op_t`
pub data Op : Type 0 where
  op_write op_read op_write_read : Op

abbrev pub same_op : Op → Op → Bool
same_op op_write op_write = true
same_op op_read op_read = true
same_op op_write_read op_write_read = true
same_op _ _ = false

-- `mock_i2c_record_t`
pub record Record : Type 0 where
  pub op : Op
  pub reg_addr : ℕ
  pub value : ℕ
  pub is_16bit : Bool

-- The static variables of the file; `s_log` with `s_log_count` is a list, the oldest entry first.
pub record State : Type 0 where
  pub regs8 : List ℕ
  pub regs16 : List ℕ
  pub log : List Record
  pub call_counter : ℕ  -- uint32_t
  pub forced_next : Err
  pub forced_number : ℕ
  pub forced_result : Err
  pub last_ticks : ℕ
  pub delay_count : ℕ  -- uint32_t

-- `mock_i2c_bus_reset`, which sets every static variable.
abbrev pub reset : State
reset = record {
  regs8 = replicate reg8_count 0;
  regs16 = replicate reg16_count 0;
  log = [];
  call_counter = 0;
  forced_next = ok;
  forced_number = 0;
  forced_result = ok;
  last_ticks = 0;
  delay_count = 0;
}

-- `_mock_log_append`
unfoldable pub log_append : Op → ℕ → ℕ → Bool → State → State
log_append op reg val wide s = if leb log_max (length s.log) then s else record s {
  log = s.log ++ (record { op = op; reg_addr = reg; value = val; is_16bit = wide } ∷ []);
}

-- The Nth-call fault of `_mock_resolve_fault_for_this_call`, with the call counted.
unfoldable pub resolve_numbered : State → Err × State
resolve_numbered s =
    if not (s.forced_number == 0) && s.call_counter == s.forced_number
    then (s.forced_result, record s { forced_number = 0 })
    else (ok, s)

-- `_mock_resolve_fault_for_this_call`
unfoldable pub resolve_fault : State → Err × State
resolve_fault s =
    let s1 = record s { call_counter = (s.call_counter + 1) % 2 ^ 32 } in
    elim s.forced_next [
      | ok ↦ resolve_numbered s1
      | err c ↦ (err c, record s1 { forced_next = ok })
    ]

-- `mock_i2c_bus_set_reg`, `mock_i2c_bus_set_reg16`
unfoldable pub set_reg : ℕ → ℕ → State → Err × State
set_reg addr v s =
    if leb reg8_count addr
    then (err invalid_arg, s)
    else (ok, record s { regs8 = set s.regs8 addr v })

unfoldable pub set_reg16 : ℕ → ℕ → State → Err × State
set_reg16 addr v s =
    if leb reg16_count addr
    then (err invalid_arg, s)
    else (ok, record s { regs16 = set s.regs16 addr v })

-- `mock_i2c_bus_get_reg`, `mock_i2c_bus_get_reg16`: the value that is stored, if one is.
unfoldable pub get_reg : ℕ → Pointer → State → Err × Option ℕ
get_reg addr p s =
    if leb reg8_count addr || is_null p
    then (err invalid_arg, none)
    else (ok, some (get_or s.regs8 addr 0))

unfoldable pub get_reg16 : ℕ → Pointer → State → Err × Option ℕ
get_reg16 addr p s =
    if leb reg16_count addr || is_null p
    then (err invalid_arg, none)
    else (ok, some (get_or s.regs16 addr 0))

-- `mock_i2c_bus_force_next_result`, `mock_i2c_bus_force_result_on_call`
unfoldable pub force_next_result : Err → State → State
force_next_result e s = record s { forced_next = e }

unfoldable pub force_result_on_call : ℕ → Err → State → State
force_result_on_call n e s = record s { forced_number = n; forced_result = e }

-- `mock_i2c_bus_get_log_count`, `mock_i2c_bus_get_log_entry`; NULL is `none`.
unfoldable pub get_log_count : State → ℕ
get_log_count s = length s.log

unfoldable pub get_log_entry : ℕ → State → Option Record
get_log_entry i s = if leb (length s.log) i then none else get_elem? s.log i

-- `mock_i2c_bus_count_op`
unfoldable pub count_in : Op → List Record → ℕ
count_in op [] = 0
count_in op (r ∷ rs) = (if same_op r.op op then 1 else 0) + count_in op rs

unfoldable pub count_op : Op → State → ℕ
count_op op s = count_in op s.log

-- `vTaskDelay` of the unit tests, and the two calls that report it.
unfoldable pub delay : ℕ → State → State
delay n s = record s { last_ticks = n; delay_count = (s.delay_count + 1) % 2 ^ 32 }

unfoldable pub get_last_delay_ticks : State → ℕ
get_last_delay_ticks s = s.last_ticks

unfoldable pub get_delay_call_count : State → ℕ
get_delay_call_count s = s.delay_count
