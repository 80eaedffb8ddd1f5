-- ===== src/Ssd1306/Task.antt =====
-- firmware/main/tasks/task_display.c: the task that draws the messages of the display queue through
-- the contract of firmware/main/hal/display_driver.h, and what the panel shows after them.
use fortunelabs_mainboard_l.Prelude.{
  ℕ, ◌+◌, ◌*◌, ◌/◌, ◌≤◌, ◌<◌, ◌≡◌, refl, ap, ◌∙◌, true, false, ◌&&◌, List, [], ◌∷◌, Option, none,
  some, if◌then◌else◌, ◌==◌, ltb, length, arith, Bool-cases, inl, inr,
}
use fortunelabs_mainboard_l.Platform.{Err, ok, Platform, Pointer}
use fortunelabs_mainboard_l.Bus.Traces.{acked}
use fortunelabs_mainboard_l.Ssd1306.Device.{
  Config, State, init_hw, clear_hw, show_text_hw, set_brightness_hw, deinit_hw, write_page,
  address_page, send_cmd, send_bytes,
}
use fortunelabs_mainboard_l.Ssd1306.Panel.{Panel, shown}
use fortunelabs_mainboard_l.Ssd1306.Texts.{text_byte}
use fortunelabs_mainboard_l.Ssd1306.Starting.{init_hw-IsOn}
use fortunelabs_mainboard_l.Ssd1306.Shown.{IsShown, show_text_hw-IsShown, show_text_hw-at_most}

-- `display_driver_t`
pub record DisplayDriver : Type 1 where
  pub State : Type 0
  pub init : Pointer → Config → State → Err × State
  pub clear : State → Err × State
  pub show_text : ℕ → Option (List ℕ) → State → Err × State
  pub set_brightness : ℕ → State → Err × State
  pub deinit : State → State

-- `display_msg_t`: the row and the characters of the text.
abbrev pub Message : Type 0
Message = ℕ × List ℕ

module _ (drv : DisplayDriver) where
  open drv use {State, show_text}

  -- The loop of `task_display` over the messages that it receives, in order. The result of each call
  -- is ignored, as in the source.
  unfoldable pub task_display : List Message → State → State
  task_display [] s = s
  task_display ((row, text) ∷ more) s = task_display more (show_text row (some text) s).1

module _ (P : Platform) (beyond : ℕ → ℕ) where
  -- `ssd1306_driver`
  abbrev pub ssd1306_driver : DisplayDriver
  ssd1306_driver = record {
    State = State;
    init = init_hw P;
    clear = clear_hw P;
    show_text = show_text_hw P beyond;
    set_brightness = set_brightness_hw P;
    deinit = deinit_hw P;
  }

-- The last text for a row, or what it was before.
unfoldable pub row_text : ℕ → List Message → Option (List ℕ) → Option (List ℕ)
row_text p [] before = before
row_text p ((row, text) ∷ more) before = row_text p more (if p == row then some text else before)

-- A byte of a row that shows a text, if any, in its first character cells.
abbrev pub row_byte : (ℕ → ℕ) → ℕ → Option (List ℕ) → ℕ → ℕ → ℕ
row_byte beyond width none c old = old
row_byte beyond width (some text) c old =
    if ltb c (8 * (width / 8)) then text_byte beyond text c else old

-- The transfers of the messages to rows that the panel has.
abbrev pub transfers : List Message → ℕ
transfers [] = 0
transfers ((row, text) ∷ more) = (if ltb row 8 then 4 else 0) + transfers more

module _ (P : Platform) (first : Panel) (beyond : ℕ → ℕ) where
  abbrev draw : List Message → State → State
  draw ms s = task_display (ssd1306_driver P beyond) ms s

  task_display-at_most :
      (ms : List Message) (s : State)
      → length (acked P (draw ms s).sys.trace) ≤ length (acked P s.sys.trace) + transfers ms
  unfolding task_display
  task_display-at_most [] s = omega arith
  task_display-at_most ((row, text) ∷ more) s =
      let s1 : State = (show_text_hw P beyond row (some text) s).1 in
      ground (arith, show_text_hw-at_most P first beyond row text s, task_display-at_most more s1)

  kept :
      (row : ℕ) (text : List ℕ) (s : State)
      → let s' = (show_text_hw P beyond row (some text) s).1 in
        (s'.width ≡ s.width) × (s'.is_initialized ≡ s.is_initialized)
  unfolding show_text_hw write_page address_page send_cmd send_bytes
  kept row text s = ground arith

  refused :
      (row : ℕ) (text : List ℕ) (s : State)
      → ltb row 8 ≡ false
      → (show_text_hw P beyond row (some text) s).1 ≡ s
  unfolding show_text_hw
  refused row text s h = ground (arith, h)

  -- One message and the byte of a row.
  row_byte-next :
      (width row : ℕ) (text : List ℕ) (before : Option (List ℕ)) (p c old now : ℕ)
      → now ≡ row_byte beyond width before c old
      → (if p == row && ltb c (8 * (width / 8)) then text_byte beyond text c else now)
        ≡ row_byte beyond width (if p == row then some text else before) c old
  row_byte-next width row text none p c old now h = ground (arith, h)
  row_byte-next width row text (some t) p c old now h = ground (arith, h)

  other_row :
      (row : ℕ) (text : List ℕ) (before : Option (List ℕ)) (p : ℕ)
      → ltb row 8 ≡ false
      → p < 8
      → (if p == row then some text else before) ≡ before
  other_row row text before p h lt = ground (arith, h, lt)

  -- After `task_display` has drawn messages through `ssd1306_driver`, each row of the panel shows in
  -- its first `width / 8` character cells the last text that was sent to it, and what it showed
  -- before if none was, provided the width is at least 8 and below 136 and the driver acknowledged
  -- every transfer. Messages to a row that the panel does not have draw nothing.
  pub task_display-row_text :
      (ms : List Message) (s : State) (before : Option (List ℕ)) (p c old : ℕ)
      → s.is_initialized ≡ true
      → 8 ≤ s.width
      → s.width < 136
      → (shown P first s).awaits ≡ false
      → length (acked P (draw ms s).sys.trace) ≡ length (acked P s.sys.trace) + transfers ms
      → p < 8
      → c < 128
      → (shown P first s).ram p c ≡ row_byte beyond s.width before c old
      → (shown P first (draw ms s)).ram p c ≡ row_byte beyond s.width (row_text p ms before) c old
  unfolding task_display row_text
  task_display-row_text [] s before p c old i wide narrow a full k lt h = h
  task_display-row_text ((row, text) ∷ more) s before p c old i wide narrow a full k lt h =
      let s1 : State = (show_text_hw P beyond row (some text) s).1 in
      let here = show_text_hw-at_most P first beyond row text s in
      let later = task_display-at_most more s1 in
      let (w, j) = kept row text s in
      elim (Bool-cases (ltb row 8)) [
        | inl e ↦
            let d : IsShown P first beyond row text s.width (shown P first s) (shown P first s1) =
              show_text_hw-IsShown P first beyond row text s i (ground (arith, e)) wide narrow a
                (ground (arith, e, full, here, later)) in
            let ih =
              task_display-row_text more s1 (if p == row then some text else before) p c old (j ∙ i)
                (omega (arith, w, wide)) (omega (arith, w, narrow)) d.ready
                (ground (arith, e, full, here, later)) k lt in
            (rw w at ih) (
              d.bytes_at p c lt
              ∙ row_byte-next s.width row text before p c old ((shown P first s).ram p c) h)
        | inr e ↦
            let same : draw ((row, text) ∷ more) s ≡ draw more s =
              ap (draw more) (refused row text s e) in
            rw (same, other_row row text before p e k)
              (task_display-row_text more s before p c old i wide narrow a
                (rw same at full ∙ ground (arith, e)) k lt h)
      ]

  -- From a start that returns ESP_OK on, with a width of at least 8 and below 136, each row of the
  -- panel shows after any messages the last text that was sent to it, in its first `width / 8`
  -- character cells, and what it showed after the start in its other bytes, if the driver acknowledges
  -- every transfer of the messages; messages to a row that the panel does not have draw nothing.
  pub started-row_text :
      (q : Pointer) (cfg : Config) (s : State) (ms : List Message) (p c : ℕ)
      → let s1 = (init_hw P q cfg s).1 in
        (init_hw P q cfg s).0 ≡ ok
        → 8 ≤ cfg.width
        → cfg.width < 136
        → length (acked P (draw ms s1).sys.trace) ≡ length (acked P s1.sys.trace) + transfers ms
        → p < 8
        → c < 128
        → (shown P first (draw ms s1)).ram p c
          ≡ row_byte beyond cfg.width (row_text p ms none) c ((shown P first s1).ram p c)
  started-row_text q cfg s ms p c o wide narrow full k lt =
      let s1 : State = (init_hw P q cfg s).1 in
      let on = init_hw-IsOn P first q cfg s o in
      task_display-row_text ms s1 none p c ((shown P first s1).ram p c) on.started
        (omega (arith, on.width_eq)) (omega (arith, on.width_eq)) on.closed full k lt refl
      ∙ ap (λ (w : ℕ). row_byte beyond w (row_text p ms none) c ((shown P first s1).ram p c))
          on.width_eq
