-- ===== src/Mcp23017/Device.antt =====
-- firmware/main/drivers/ic/mcp23017.h (registers and structs) and mcp23017.c: initialization and
-- the operations on whole ports.
use fortunelabs_mainboard_l.Prelude.{
  ℕ, Bool, true, false, not, ◌||◌, ◌&&◌, [], ◌∷◌, if◌then◌else◌, ◌==◌, ltb,
}
use fortunelabs_mainboard_l.Platform.{
  Err, ok, err, invalid_arg, invalid_state, Pointer, null, valid, is_null, Platform, byte_at,
}
use fortunelabs_mainboard_l.Bus.State.{Sys}
use fortunelabs_mainboard_l.Bus.Lifecycle.{add_device}
use fortunelabs_mainboard_l.Bus.Transfers.{write, write_read}

-- The register map (IOCON.BANK = 0).
abbrev pub reg_iodira : ℕ
reg_iodira = 0x00

abbrev pub reg_iodirb : ℕ
reg_iodirb = 0x01

abbrev pub reg_ipola : ℕ
reg_ipola = 0x02

abbrev pub reg_ipolb : ℕ
reg_ipolb = 0x03

abbrev pub reg_gppua : ℕ
reg_gppua = 0x0C

abbrev pub reg_gppub : ℕ
reg_gppub = 0x0D

abbrev pub reg_gpioa : ℕ
reg_gpioa = 0x12

abbrev pub reg_gpiob : ℕ
reg_gpiob = 0x13

abbrev pub reg_olata : ℕ
reg_olata = 0x14

abbrev pub reg_olatb : ℕ
reg_olatb = 0x15

abbrev pub reg_iocon : ℕ
reg_iocon = 0x0A

abbrev pub reg_iocon_bank1 : ℕ
reg_iocon_bank1 = 0x05

abbrev pub addr_base : ℕ
addr_base = 0x20

abbrev pub addr_max : ℕ
addr_max = 0x27

abbrev pub default_olat : ℕ
default_olat = 0x00

-- `mcp23017_port_t`, an integer that the operations check.
abbrev pub port_a : ℕ
port_a = 0

abbrev pub port_b : ℕ
port_b = 1

-- `mcp23017_config_t`
pub record Config : Type 0 where
  pub bus : Pointer
  pub address : ℕ
  pub scl_hz : ℕ
  pub dir_a : ℕ
  pub dir_b : ℕ
  pub pullup_a : ℕ
  pub pullup_b : ℕ

-- `mcp23017_t`. The bus pointer is NULL or the one bus of the board.
pub record Device : Type 0 where
  pub bus_handle : Pointer
  pub dev_handle : ℕ
  pub dev_addr : ℕ
  pub is_initialized : Bool
  pub dir_a : ℕ
  pub dir_b : ℕ
  pub olat_a : ℕ
  pub olat_b : ℕ

-- The driver instance, the bus and the calls made so far.
pub record State : Type 0 where
  pub dev : Device
  pub sys : Sys

abbrev pub put_sys : Sys → State → State
put_sys y s = record s { sys = y }

abbrev pub put_dev : Device → State → State
put_dev d s = record s { dev = d }

-- `if (ret != ESP_OK) return ret;` after a call: the rest runs only after ESP_OK.
infixl 5 ◌>>=◌
abbrev pub ◌>>=◌ : Err × State → (State → Err × State) → Err × State
m >>= k = elim (m.0) [ ok ↦ k m.1 | err c ↦ (err c, m.1) ]

-- `_mcp23017_is_ready`
abbrev pub is_ready : Pointer → Device → Bool
is_ready p d = not (is_null p) && d.is_initialized

abbrev pub is_bad_port : ℕ → Bool
is_bad_port port = not (port == port_a) && not (port == port_b)

-- `(port == MCP23017_PORT_A) ? a : b`
abbrev pub by_port : ℕ → ℕ → ℕ → ℕ
by_port port a b = if port == port_a then a else b

-- The shadow registers of a port.
abbrev pub put_dir : ℕ → ℕ → Device → Device
put_dir port v d = if port == port_a then record d { dir_a = v } else record d { dir_b = v }

abbrev pub put_olat : ℕ → ℕ → Device → Device
put_olat port v d = if port == port_a then record d { olat_a = v } else record d { olat_b = v }

-- `memset(dev, 0, sizeof(mcp23017_t))`
abbrev pub zero_device : Device
zero_device = record {
  bus_handle = null;
  dev_handle = 0;
  dev_addr = 0;
  is_initialized = false;
  dir_a = 0;
  dir_b = 0;
  olat_a = 0;
  olat_b = 0;
}

-- Steps 5 and 6: the shadow registers and the flag.
abbrev pub init_shadow : Config → Device → Device
init_shadow cfg d = record d {
  dir_a = cfg.dir_a;
  dir_b = cfg.dir_b;
  olat_a = default_olat;
  olat_b = default_olat;
  is_initialized = true;
}

-- `mcp23017_deinit`
unfoldable pub deinit : Pointer → State → State
deinit p s = if is_null p then s else put_dev zero_device s

module _ (P : Platform) where
  -- `_mcp23017_write_reg`
  unfoldable pub write_reg : ℕ → ℕ → State → Err × State
  write_reg reg v s =
      let (r, y) = write P s.dev.bus_handle s.dev.dev_handle (reg ∷ v ∷ []) s.sys in
      (r, put_sys y s)

  -- `_mcp23017_read_reg`: the byte is what the driver stored.
  unfoldable pub read_reg : ℕ → State → Err × ℕ × State
  read_reg reg s =
      let (r, buf, y) = write_read P s.dev.bus_handle s.dev.dev_handle (reg ∷ []) 1 s.sys in
      (r, byte_at buf 0, put_sys y s)

  -- From step A of the initialization on: the eight register writes, then the shadow.
  unfoldable pub init_registers : Config → State → Err × State
  init_registers cfg s = write_reg reg_iocon_bank1 0x00 s >>= λ s.
      write_reg reg_iocon 0x00 s >>= λ s. write_reg reg_iodira cfg.dir_a s >>= λ s.
      write_reg reg_iodirb cfg.dir_b s >>= λ s. write_reg reg_gppua cfg.pullup_a s >>= λ s.
      write_reg reg_gppub cfg.pullup_b s >>= λ s. write_reg reg_olata default_olat s >>= λ s.
      write_reg reg_olatb default_olat s >>= λ s. (ok, put_dev (init_shadow cfg s.dev) s)

  -- `mcp23017_init`
  unfoldable pub init : Pointer → Pointer → Config → State → Err × State
  init p q cfg s =
      if is_null p || is_null q || is_null cfg.bus
      then (err invalid_arg, s)
      else (if ltb cfg.address addr_base || ltb addr_max cfg.address
          then (err invalid_arg, s)
          else (let d = record (s.dev) {
            bus_handle = cfg.bus;
            dev_addr = cfg.address;
            is_initialized = false;
          } in
              let (r, h, y) =
                add_device P cfg.bus cfg.address cfg.scl_hz valid d.dev_handle s.sys in
              let s1 : State = record { dev = record d { dev_handle = h }; sys = y } in
              elim r [ err c ↦ (err c, s1) | ok ↦ init_registers cfg s1 ]))

  -- The guards that the port operations share.
  abbrev pub with_port : Pointer → ℕ → State → (State → Err × State) → Err × State
  with_port p port s k =
      if not (is_ready p s.dev)
      then (err invalid_state, s)
      else (if is_bad_port port then (err invalid_arg, s) else k s)

  -- `mcp23017_set_port_direction`, `mcp23017_write_port`: the shadow follows a confirmed write.
  unfoldable pub set_port_direction : Pointer → ℕ → ℕ → State → Err × State
  set_port_direction p port v s = with_port p port s λ s.
      write_reg (by_port port reg_iodira reg_iodirb) v s >>= λ s'.
      (ok, put_dev (put_dir port v s'.dev) s')

  unfoldable pub write_port : Pointer → ℕ → ℕ → State → Err × State
  write_port p port v s = with_port p port s λ s.
      write_reg (by_port port reg_olata reg_olatb) v s >>= λ s'.
      (ok, put_dev (put_olat port v s'.dev) s')

  -- `mcp23017_set_port_pullup`, `mcp23017_set_port_polarity`
  unfoldable pub set_port_pullup : Pointer → ℕ → ℕ → State → Err × State
  set_port_pullup p port v s = with_port p port s (write_reg (by_port port reg_gppua reg_gppub) v)

  unfoldable pub set_port_polarity : Pointer → ℕ → ℕ → State → Err × State
  set_port_polarity p port v s = with_port p port s (write_reg (by_port port reg_ipola reg_ipolb) v)

  -- `mcp23017_read_port`: the live pin state, from the GPIO register.
  unfoldable pub read_port : Pointer → ℕ → Pointer → State → Err × ℕ × State
  read_port p port out s =
      if not (is_ready p s.dev)
      then (err invalid_state, 0, s)
      else (if is_bad_port port || is_null out
          then (err invalid_arg, 0, s)
          else read_reg (by_port port reg_gpioa reg_gpiob) s)
