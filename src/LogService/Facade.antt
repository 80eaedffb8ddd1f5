-- ===== src/LogService/Facade.antt =====
-- firmware/main/system/system_log.c: the operations of the log facade, over any queue of lines.
use fortunelabs_mainboard_l.Prelude.{
  ℕ, zero, suc, Bool, true, false, not, ◌&&◌, List, [], ◌∷◌, Option, none, some, if◌then◌else◌,
  length,
}
use fortunelabs_mainboard_l.Prelude.Text.{codes, is_empty, truncate}
use fortunelabs_mainboard_l.Platform.{Err, ok, err, no_mem, invalid_state}
use fortunelabs_mainboard_l.Queues.{QueueApi}

abbrev pub line_max : ℕ
line_max = 160

-- `vprintf_like_t`: the function that writes to the UART (`vprintf`, and the writer that esp_log
-- starts with), or `log_vprintf`.
pub data Writer : Type 0 where
  uart hook : Writer

-- `tag ? tag : "*"`
abbrev pub tag_or_all : Option (List ℕ) → List ℕ
tag_or_all none = codes "*"
tag_or_all (some tag) = tag

module _ (api : QueueApi (List ℕ)) where
  -- The static variables of the file. `writer` is what esp_log writes with, by the last
  -- `esp_log_set_vprintf`. Then, the newest first: the lines given to the sink, the lines on the
  -- UART, the calls of `esp_log_level_set`, and the queues that were deleted.
  pub record State : Type 0 where
    pub queue : Option api.Queue
    pub orig : Option Writer
    pub has_sink : Bool
    pub forwarding : Bool
    pub initialized : Bool
    pub writer : Writer
    pub sunk : List (List ℕ)
    pub serial : List (List ℕ)
    pub levels : List (List ℕ × ℕ)
    pub deleted : List api.Queue

  -- A line that is written to the UART.
  abbrev pub print : List ℕ → State → State
  print text s = record s { serial = text ∷ s.serial }

  -- A copy of a formatted line into the queue; an empty one is not sent, a long one is cut.
  unfoldable pub queue_line : List ℕ → State → State
  queue_line text s = if is_empty text then s else elim s.queue [
    | none ↦ s
    | some q ↦ record s { queue = some (api.send (truncate line_max text) q).1 }
  ]

  -- The second half of `log_vprintf`: the copy for the sink.
  unfoldable pub copy_line : List ℕ → State → State
  copy_line text s = if s.has_sink && not s.forwarding then queue_line text s else s

  abbrev pub copied : List ℕ → Option (ℕ × State) → Option (ℕ × State)
  copied text none = none
  copied text (some (n, s)) = some (n, copy_line text s)

  -- `log_vprintf`, for arguments that format to `text`. It calls the saved writer, which the code
  -- does not keep from being `log_vprintf`: it runs on fuel, and `none` is a call that still runs.
  unfoldable pub log_vprintf : ℕ → List ℕ → State → Option (ℕ × State)
  log_vprintf zero text s = none
  log_vprintf (suc fuel) text s =
      let nested = log_vprintf fuel text s in
      elim s.orig [
        | none ↦ copied text (some (length text, print text s))
        | some w ↦ elim w [
          | uart ↦ copied text (some (length text, print text s))
          | hook ↦ copied text nested
        ]
      ]

  abbrev pub left_by : Option (ℕ × State) → Option State
  left_by none = none
  left_by (some (n, s)) = some s

  -- What `ESP_LOGx` does with a formatted line.
  unfoldable pub log_line : ℕ → List ℕ → State → Option State
  log_line fuel text s = elim s.writer [
    | uart ↦ some (print text s)
    | hook ↦ left_by (log_vprintf fuel text s)
  ]

  unfoldable pub log_all : ℕ → List (List ℕ) → State → Option State
  log_all fuel [] s = some s
  log_all fuel (t ∷ ts) s = elim (log_line fuel t s) [ none ↦ none | some s1 ↦ log_all fuel ts s1 ]

  abbrev pub end_delivery : Option State → Option State
  end_delivery none = none
  end_delivery (some s) = some (record s { forwarding = false })

  -- The call of the sink, which may log the given lines itself.
  unfoldable pub deliver : ℕ → List ℕ → List (List ℕ) → State → Option State
  deliver fuel line own s =
      if s.has_sink
      then end_delivery (log_all fuel own (record s { forwarding = true; sunk = line ∷ s.sunk }))
      else some s

  -- One round of `task_log_forwarder`; an empty queue blocks it.
  unfoldable pub forward : ℕ → List (List ℕ) → State → Option State
  forward fuel own s = elim s.queue [
    | none ↦ some s
    | some q ↦ elim (api.receive q).0 [
      | none ↦ some s
      | some line ↦ deliver fuel line own (record s { queue = some (api.receive q).1 })
    ]
  ]

  -- `n` rounds of `task_log_forwarder`.
  unfoldable pub forward_all : ℕ → ℕ → List (List ℕ) → State → Option State
  forward_all fuel zero own s = some s
  forward_all fuel (suc n) own s = elim (forward fuel own s) [
    | none ↦ none
    | some s1 ↦ forward_all fuel n own s1
  ]

  -- `system_log_set_level`
  unfoldable pub set_level : Option (List ℕ) → ℕ → State → State
  set_level tag level s = record s { levels = (tag_or_all tag, level) ∷ s.levels }

  -- The rest of `system_log_init`, with the result of `xQueueCreate` and whether `xTaskCreate`
  -- succeeds.
  unfoldable pub init_parts : Option api.Queue → Bool → State → Err × State
  init_parts none started s = (err no_mem, record s { queue = none })
  init_parts (some q) false s = (err no_mem, record s { queue = none; deleted = q ∷ s.deleted })
  init_parts (some q) true s =
      (ok, record s { queue = some q; orig = some s.writer; writer = hook; initialized = true })

  -- `system_log_init`
  unfoldable pub init : ℕ → Option api.Queue → Bool → State → Err × State
  init level made started s =
      init_parts made started (record s { levels = (codes "*", level) ∷ s.levels })

  -- `system_log_register_sink`, with `sink != NULL`.
  unfoldable pub register_sink : Bool → State → Err × State
  register_sink given s =
      if not s.initialized then (err invalid_state, s) else (ok, record s { has_sink = given })

  -- `system_log_unregister_sink`
  unfoldable pub unregister_sink : State → State
  unregister_sink s = record s { has_sink = false }
