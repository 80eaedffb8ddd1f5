-- ===== src/Ssd1306/Power.antt =====
-- Whether the panel is lit: the commands of firmware/main/drivers/ic/ssd1306.c that set the display,
-- its charge pump and its addressing mode, read off the acknowledged transfers by the data sheet.
use fortunelabs_mainboard_l.Prelude.{
  ℕ, zero, suc, ◌+◌, ◌/◌, ◌%◌, ◌≤◌, ◌<◌, ◌≡◌, refl, sym, ap, subst, ◌∙◌, Bool, true, false, not,
  ◌||◌, List, [], ◌∷◌, some, if◌then◌else◌, ◌==◌, leb, replicate, arith, Bool-cases, inl, inr,
}
use fortunelabs_mainboard_l.Platform.{
  ok, is_ok, Pointer, Platform, transmit, receive, transmit_receive, Transfer, Err-cases,
}
use fortunelabs_mainboard_l.Bus.Traces.{acked}
use fortunelabs_mainboard_l.Ssd1306.Font.{glyphs}
use fortunelabs_mainboard_l.Ssd1306.Device.{
  Config, State, write_page, page_bytes, clear_pages, show_text_hw, init_hw, init_cmds, send_cmds,
  address_page, send_bytes, send_cmd,
}
use fortunelabs_mainboard_l.Ssd1306.Panel.{takes_argument}
use fortunelabs_mainboard_l.Ssd1306.Rows.{send_bytes-acked, same_handle}
use fortunelabs_mainboard_l.Ssd1306.Starting.{added, send_cmds-next, send_cmds-stopped, init_hw-ok}
use fortunelabs_mainboard_l.Ssd1306.Task.{Message, ssd1306_driver, task_display}

-- The command whose argument is awaited, 0 if none is; whether the display and the charge pump are
-- on; and the addressing mode of the memory, 2 for pages.
pub record Power : Type 0 where
  pub open_command : ℕ
  pub lit : Bool
  pub pump : Bool
  pub mode : ℕ

-- An argument: the charge pump is enabled by 0x14, the mode is set by its two low bits.
abbrev argument : ℕ → ℕ → Power → Power
argument command a d = record {
  open_command = 0;
  lit = d.lit;
  pump = if command == 0x8D then a == 0x14 else d.pump;
  mode = if command == 0x20 then a % 4 else d.mode;
}

-- A command: 0xAE turns the display off, 0xAF on.
abbrev begun : ℕ → Power → Power
begun c d = record {
  open_command = if takes_argument c then c else 0;
  lit = if c == 0xAF then true else (if c == 0xAE then false else d.lit);
  pump = d.pump;
  mode = d.mode;
}

abbrev pub tell : ℕ → Power → Power
tell c d = if d.open_command == 0 then begun c d else argument d.open_command c d

-- A transfer: control byte 0x00 and a command; a stream sets nothing.
abbrev pub hear_bytes : List ℕ → Power → Power
hear_bytes [] d = d
hear_bytes (control ∷ []) d = d
hear_bytes (control ∷ c ∷ more) d = if control == 0x40 then d else tell c d

abbrev pub hear : ℕ → Transfer → Power → Power
hear h (transmit h' bytes) d = if h' == h then hear_bytes bytes d else d
hear h (receive h' n) d = d
hear h (transmit_receive h' bytes n) d = d

unfoldable pub power : ℕ → Power → List Transfer → Power
power h first [] = first
power h first (x ∷ xs) = hear h x (power h first xs)

-- The display and its charge pump are on, the memory is addressed by pages, and no argument is awaited.
pub record IsLit (d : Power) : Type 0 where
  pub closed : d.open_command ≡ 0
  pub lit : d.lit ≡ true
  pub pumped : d.pump ≡ true
  pub by_page : d.mode ≡ 2

abbrev plain : ℕ → Bool
plain c = not (takes_argument c || c == 0xAE || c == 0xAF)

tell-IsLit : (c : ℕ) (d : Power) → plain c ≡ true → IsLit d → IsLit (tell c d)
tell-IsLit c d p h = record {
  closed = ground (arith, p, h.closed);
  lit = ground (arith, p, h.closed, h.lit);
  pumped = ground (arith, p, h.closed, h.pumped);
  by_page = ground (arith, p, h.closed, h.by_page);
}

abbrev tell_all : List ℕ → Power → Power
tell_all [] d = d
tell_all (c ∷ cs) d = tell_all cs (tell c d)

-- The commands of the start light the panel, whatever state it was in: also if it takes the first of
-- them for an argument.
init_cmds-IsLit : (d : Power) → IsLit (tell_all init_cmds d)
init_cmds-IsLit d = elim (Bool-cases (d.open_command == 0)) [
  | inl e ↦ rw e (record { closed = refl; lit = refl; pumped = refl; by_page = refl })
  | inr e ↦ rw e (record { closed = refl; lit = refl; pumped = refl; by_page = refl })
]

module _ (P : Platform) (first : Power) where
  abbrev pub powered : State → Power
  powered s = power s.handle first (acked P s.sys.trace)

  power-next :
      (h : ℕ) (bytes : List ℕ) (xs : List Transfer) (b : Bool)
      → power h first (if b then transmit h bytes ∷ xs else xs)
        ≡ (if b then hear_bytes bytes (power h first xs) else power h first xs)
  unfolding power
  power-next h bytes xs true = rw (same_handle h) refl
  power-next h bytes xs false = refl

  send_bytes-handle : (bytes : List ℕ) (s : State) → (send_bytes P bytes s).1.handle ≡ s.handle
  unfolding send_bytes
  send_bytes-handle bytes s = refl

  send_bytes-powered :
      (bytes : List ℕ) (s : State)
      → let (r, s') = send_bytes P bytes s in
        powered s' ≡ (if is_ok r then hear_bytes bytes (powered s) else powered s)
  send_bytes-powered bytes s =
      let (r, s') = send_bytes P bytes s in
      let (sent, _) = send_bytes-acked P bytes s in
      ap (λ (h : ℕ). power h first (acked P s'.sys.trace)) (send_bytes-handle bytes s)
      ∙ ap (power s.handle first) sent
      ∙ power-next s.handle bytes (acked P s.sys.trace) (is_ok r)

  if-IsLit : (b : Bool) (x y : Power) → IsLit x → IsLit y → IsLit (if b then x else y)
  if-IsLit true x y h k = h
  if-IsLit false x y h k = k

  -- A plain command keeps the panel lit, acknowledged or not.
  send_cmd-IsLit :
      (c : ℕ) (s : State) → plain c ≡ true → IsLit (powered s) → IsLit (powered (send_cmd P c s).1)
  unfolding send_cmd
  send_cmd-IsLit c s p h = subst IsLit (sym (send_bytes-powered (0x00 ∷ c ∷ []) s)) (
      if-IsLit (is_ok (send_bytes P (0x00 ∷ c ∷ []) s).0) (tell c (powered s)) (powered s)
        (tell-IsLit c (powered s) p h) h)

  stream : (bytes : List ℕ) (d : Power) → hear_bytes (0x40 ∷ bytes) d ≡ d
  stream [] d = refl
  stream (b ∷ more) d = refl

  send_stream-IsLit :
      (bytes : List ℕ) (s : State)
      → IsLit (powered s)
      → IsLit (powered (send_bytes P (0x40 ∷ bytes) s).1)
  send_stream-IsLit bytes s h = subst IsLit (sym (send_bytes-powered (0x40 ∷ bytes) s)) (
      if-IsLit (is_ok (send_bytes P (0x40 ∷ bytes) s).0) (hear_bytes (0x40 ∷ bytes) (powered s))
        (powered s) (subst IsLit (sym (stream bytes (powered s))) h) h)

  write_page-IsLit :
      (page : ℕ) (bytes : List ℕ) (s : State)
      → page < 8
      → IsLit (powered s)
      → IsLit (powered (write_page P page bytes s).1)
  unfolding write_page address_page
  write_page-IsLit page bytes s k h =
      let s1 : State = (send_cmd P ((0xB0 + page) % 256) s).1 in
      let s2 : State = (send_cmd P 0x00 s1).1 in
      let s3 : State = (send_cmd P 0x10 s2).1 in
      send_stream-IsLit bytes s3 (
        send_cmd-IsLit 0x10 s2 refl (
          send_cmd-IsLit 0x00 s1 refl
            (send_cmd-IsLit ((0xB0 + page) % 256) s (ground (arith, k)) h)))

  clear_pages-IsLit :
      (n page : ℕ) (s : State)
      → page + n ≤ 8
      → IsLit (powered s)
      → IsLit (powered (clear_pages P n page s).1)
  unfolding clear_pages
  clear_pages-IsLit zero page s k h = h
  clear_pages-IsLit (suc n) page s k h =
      let blank : List ℕ = replicate page_bytes 0 in
      let s1 : State = (write_page P page blank s).1 in
      let here = write_page-IsLit page blank s (omega (arith, k)) h in
      elim (Err-cases (write_page P page blank s).0) [
        | inl e ↦ rw (e, clear_pages) (clear_pages-IsLit n (page + 1) s1 (omega (arith, k)) here)
        | inr (c, e) ↦ rw (e, clear_pages) here
      ]

  send_cmds-powered :
      (cmds : List ℕ) (s : State)
      → let (r, s') = send_cmds P cmds s in r ≡ ok → powered s' ≡ tell_all cmds (powered s)
  send_cmds-powered [] s o = unfold send_cmds in refl
  send_cmds-powered (c ∷ cs) s o =
      let s1 : State = (send_cmd P c s).1 in
      elim (Err-cases (send_cmd P c s).0) [
        | inl e ↦
            let next = send_cmds-next P c cs s e in
            let told : powered s1 ≡ tell c (powered s) =
              unfold send_cmd in (rw e at (send_bytes-powered (0x00 ∷ c ∷ []) s)) in
            rw next (send_cmds-powered cs s1 (rw next at o) ∙ ap (tell_all cs) told)
        | inr (k, e) ↦ absurd (cc (send_cmds-stopped P c cs s (rw e refl), o))
      ]

  init_hw-IsLit :
      (p : Pointer) (cfg : Config) (s : State)
      → (init_hw P p cfg s).0 ≡ ok
      → IsLit (powered (init_hw P p cfg s).1)
  init_hw-IsLit p cfg s o =
      let s1 : State = added P cfg s in
      let s2 : State = (send_cmds P init_cmds s1).1 in
      let s3 : State = record s2 { is_initialized = true } in
      let (sent, same) = init_hw-ok P p cfg s o in
      rw same (
        clear_pages-IsLit 8 0 s3 (omega arith)
          (subst IsLit (sym (send_cmds-powered init_cmds s1 sent)) (init_cmds-IsLit (powered s1))))

  module _ (beyond : ℕ → ℕ) where
    show_text_hw-IsLit :
        (row : ℕ) (text : List ℕ) (s : State)
        → IsLit (powered s)
        → IsLit (powered (show_text_hw P beyond row (some text) s).1)
    unfolding show_text_hw
    show_text_hw-IsLit row text s h = elim (Bool-cases (not s.is_initialized)) [
      | inl e ↦ rw e h
      | inr e ↦ rw e (elim (Bool-cases (leb 8 row)) [
        | inl f ↦ rw f h
        | inr f ↦
            rw f (write_page-IsLit row (glyphs beyond (s.width / 8) text) s (ground (arith, f)) h)
      ])
    ]

    drawn-IsLit :
        (ms : List Message) (s : State)
        → IsLit (powered s)
        → IsLit (powered (task_display (ssd1306_driver P beyond) ms s))
    unfolding task_display
    drawn-IsLit [] s h = h
    drawn-IsLit ((row, text) ∷ more) s h =
        drawn-IsLit more (show_text_hw P beyond row (some text) s).1
          (show_text_hw-IsLit row text s h)

    -- From a start that returns ESP_OK on, whatever the panel did before, whatever messages are
    -- drawn and whatever the driver acknowledges of them, the commands that the panel has taken
    -- leave the display and its charge pump on, its memory addressed by pages, and no argument
    -- awaited.
    pub started-IsLit :
        (q : Pointer) (cfg : Config) (s : State) (ms : List Message)
        → (init_hw P q cfg s).0 ≡ ok
        → IsLit (powered (task_display (ssd1306_driver P beyond) ms (init_hw P q cfg s).1))
    started-IsLit q cfg s ms o = drawn-IsLit ms (init_hw P q cfg s).1 (init_hw-IsLit q cfg s o)
