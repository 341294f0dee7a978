-- ===== src/Link/Exchange.antt =====
-- Single steps of a configuration, one reply each, and how they compose.
use myir_bluetooth.Common.{
  ℕ, ◌+◌, ◌<◌, ◌^◌, Bool, true, false, Option, none, some, List, [], ◌∷◌, ◌++◌, Bytes, ◌≡◌, refl,
  arith, length, if◌then◌else◌, ltb, ◌∙◌, length-append, Bool-cases, inl, inr,
}
use myir_bluetooth.Config.{Config}
use myir_bluetooth.Hardware.Handler.{dispatch, free_evt, hw_config_start}
use myir_bluetooth.Hardware.Hci.{
  hci_reset, hci_cmd_preamble_size, hci_read_local_name, hci_vsc_update_baudrate,
  hci_vsc_write_uart_clock_setting, hci_vsc_write_bd_addr, bare_command, bd_addr_command,
  uart_clock_command, baudrate_command,
}
use myir_bluetooth.Hardware.Setup.{complete, close_fw, on_start}
use myir_bluetooth.Ledger.{fw_reports, sends}
use myir_bluetooth.Link.Peers.{Willing, Controller, commands, turn, turns, turns-add}
use myir_bluetooth.Link.Sending.{baud-Sent, clock-Sent, name-Sent, set_address-Sent}
use myir_bluetooth.Link.Steps.{
  Waits, Sends, Adds, Next, served, spare, served-Waits, turn-dispatch, turn-Sent,
}
use myir_bluetooth.Platform.{Env, Trace, alloc}
use myir_bluetooth.World.{
  World, HwState, start, set_uart_clock, set_uart_baud_1, read_local_name, set_uart_baud_2,
  set_bd_addr,
}
use myir_bluetooth.Link.Reports.{Adds-append, Searching, Configured}

-- The commands that bring the controller to the target speed.
abbrev pub speed_up : Config → List Bytes
speed_up c =
    let rate : Bytes = (baudrate_command c.uart_target_baud_rate).bytes in
    if ltb 3_000_000 c.uart_target_baud_rate
    then uart_clock_command.bytes ∷ rate ∷ []
    else rate ∷ []

module _ (c : Config) (e : Env) (up : Willing e) (k : Controller) where
  -- With one reply for each of the commands in `sent`, these were sent and a state of `P` reached.
  abbrev pub After : (World → Type 0) → List Bytes → World → Type 0
  After P sent w = (w' : World) × (turns c e k (length sent) w ≡ some w') × P w' × Adds sent w w'

  pub After-append :
      {P Q : World → Type 0} (xs ys : List Bytes) (w : World)
      → After P xs w
      → ((v : World) → P v → v.bd_addr ≡ w.bd_addr → After Q ys v)
      → After Q (xs ++ ys) w
  After-append xs ys w (v, ran, there, adds) next =
      let (u, ran', there', adds') = next v there adds.address in
      (
        u,
        rw (length-append xs ys) (turns-add c e k (length xs) (length ys) w ran ran'),
        there',
        Adds-append xs ys w v u adds adds',
      )

  -- One reply that is answered with one command, where no file is read.
  from_Next :
      {size : ℕ} {bytes : Bytes} {s : HwState} {b : Bool} {f : Option ℕ} {opcode : ℕ} (fd : ℕ)
      (w : World)
      → Next c e up k fd size bytes s b f opcode w
      → (w' : World) × (turns c e k 1 w ≡ some w')
        × Waits s b f opcode w'
        × Sends fd size (bytes ∷ []) w w'
  unfolding turns
  from_Next fd w (w', at, waits, sends) = (w', rw at refl, waits, sends)

  pub After-Next :
      {bytes : Bytes} {s : HwState} {b : Bool} {opcode : ℕ} (fd : ℕ) (path : Bytes) (w : World)
      → w.hw.fw_patchfile_path ≡ path
      → w.hw.fw_patchfile_name ≡ []
      → Next c e up k fd 0 bytes s b none opcode w
      → After (Searching s b opcode path) (bytes ∷ []) w
  After-Next fd path w at unnamed next =
      let (w', ran, waits, sends) = from_Next fd w next in
      (w', ran, (waits, sends.path ∙ at, sends.name ∙ unnamed), ground arith)

  module _ (path : Bytes) where
    -- `HW_CFG_SET_UART_CLOCK`.
    pub rate_After :
        (b : Bool) (opcode : ℕ) (w : World)
        → opcode < 2 ^ 16
        → Searching set_uart_clock b opcode path w
        → After
            (Searching
              (if b then set_uart_baud_2 else set_uart_baud_1)
              b
              hci_vsc_update_baudrate
              path)
            ((baudrate_command c.uart_target_baud_rate).bytes ∷ [])
            w
    unfolding dispatch
    rate_After b opcode w small (h, at, unnamed) = After-Next 0 path w at unnamed (
        turn-Sent c e up k 0 0 opcode w _ small h refl
          (baud-Sent c e up 0 b (spare c e up k w) (served c e up k w) (served-Waits c e up k w h)))

    -- From `HW_CFG_START` to the target speed.
    pub speed_After :
        (b : Bool) (w : World)
        → Searching start b hci_reset path w
        → After
            (Searching
              (if b then set_uart_baud_2 else set_uart_baud_1)
              b
              hci_vsc_update_baudrate
              path)
            (speed_up c)
            w
    unfolding dispatch on_start
    speed_After b w (h, at, unnamed) =
        let u : World = served c e up k w in
        let addr : ℕ = spare c e up k w in
        let h' = served-Waits c e up k w h in
        elim (Bool-cases (ltb 3_000_000 c.uart_target_baud_rate)) [
          | inl fast ↦ rw fast (
              After-append (uart_clock_command.bytes ∷ [])
                ((baudrate_command c.uart_target_baud_rate).bytes ∷ []) w
                (After-Next 0 path w at unnamed (
                  turn-Sent c e up k 0 0 hci_reset w _ (omega arith) h refl
                    (clock-Sent c e up 0 b addr u h' fast)))
                (λ v there _. rate_After b hci_vsc_write_uart_clock_setting v (omega arith) there))
          | inr slow ↦ rw slow (
              After-Next 0 path w at unnamed (
                turn-Sent c e up k 0 0 hci_reset w _ (omega arith) h (rw slow refl)
                  (baud-Sent c e up 0 b addr u h')))
        ]

    -- `HW_CFG_SET_UART_BAUD_1`: the controller is asked for its name.
    pub name_After :
        (w : World)
        → Searching set_uart_baud_1 false hci_vsc_update_baudrate path w
        → After
            (Searching read_local_name false hci_read_local_name path)
            ((bare_command hci_read_local_name).bytes ∷ [])
            w
    unfolding dispatch
    name_After w (h, at, unnamed) = After-Next 0 path w at unnamed (
        turn-Sent c e up k 0 0 hci_vsc_update_baudrate w _ (omega arith) h refl (
          name-Sent c e up 0 false (spare c e up k w) (served c e up k w)
            (served-Waits c e up k w h)))

    -- `HW_CFG_SET_UART_BAUD_2`: the address is written.
    pub address_After :
        (w : World)
        → c.use_controller_bdaddr ≡ false
        → Searching set_uart_baud_2 true hci_vsc_update_baudrate path w
        → After
            (Searching set_bd_addr true hci_vsc_write_bd_addr path)
            ((bd_addr_command w.bd_addr).bytes ∷ [])
            w
    unfolding dispatch
    address_After w own (h, at, unnamed) = After-Next 0 path w at unnamed (
        turn-Sent c e up k 0 0 hci_vsc_update_baudrate w _ (omega arith) h refl (
          set_address-Sent c e up 0 true (spare c e up k w) (served c e up k w)
            (served-Waits c e up k w h) own))

    -- The last reply.
    pub complete_turn :
        (b : Bool) (w : World)
        → Searching set_bd_addr b hci_vsc_write_bd_addr path w
        → (w' : World) × (turn c e k w ≡ some w')
          × Configured (fw_reports w.trace) (commands w.trace) w'
    unfolding dispatch complete close_fw free_evt
    complete_turn b w (h, at, unnamed) =
        let u : World = served c e up k w in
        let r : World × Bool = complete c e (spare c e up k w) u in
        let runs = turn-dispatch c e up k hci_vsc_write_bd_addr w r.0 (omega arith) h refl in
        (free_evt c e (k.reply hci_vsc_write_bd_addr) r.0, runs, ground arith)

    pub start_Searching :
        (w : World)
        → w.cbacks ≡ true
        → w.hw.fw_patchfile_path ≡ path
        → w.hw.fw_patchfile_name ≡ []
        → Searching start false hci_reset path (hw_config_start c e w)
          × Adds ((bare_command hci_reset).bytes ∷ []) w (hw_config_start c e w)
    unfolding hw_config_start
    start_Searching w back at unnamed =
        let given = up.given w.trace (e.bt_hc_hdr_size + hci_cmd_preamble_size) in
        let taken : Trace =
          alloc (e.bt_hc_hdr_size + hci_cmd_preamble_size)
            (e.alloc_answer w.trace (e.bt_hc_hdr_size + hci_cmd_preamble_size))
          ∷ w.trace in
        let accepted = up.accepts taken hci_reset (bare_command hci_reset) in
        (ground arith, ground arith)
