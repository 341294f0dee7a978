-- ===== src/Link/Address.antt =====
-- The end of a configuration: the address is written, or it is read from the controller, and written
-- only if the controller has none.
use myir_bluetooth.Common.{
  ℕ, Bool, true, false, none, some, List, [], ◌∷◌, Bytes, ◌≡◌, ◌⊎◌, refl, arith, inl, inr, sym, ◌∙◌,
}
use myir_bluetooth.Config.{Config}
use myir_bluetooth.Hardware.Handler.{dispatch, free_evt, has_null_bdaddr}
use myir_bluetooth.Hardware.Hci.{
  hci_read_local_bdaddr, hci_vsc_update_baudrate, hci_vsc_write_bd_addr, bare_command,
  bd_addr_command,
}
use myir_bluetooth.Hardware.Setup.{
  send, set_target_baud, hw_config_read_bdaddr, on_set_uart_baud_2, on_read_bd_addr, or_complete,
  complete, close_fw,
}
use myir_bluetooth.Ledger.{fw_reports}
use myir_bluetooth.Link.Exchange.{After, After-append, address_After, complete_turn, After-Next}
use myir_bluetooth.Link.Reports.{Configured, Searching}
use myir_bluetooth.Link.Peers.{Willing, Controller, commands, turn}
use myir_bluetooth.Link.Sending.{address-Sent}
use myir_bluetooth.Link.Steps.{Waits, Sent, served, spare, served-Waits, turn-dispatch, turn-Sent}
use myir_bluetooth.Platform.{Env}
use myir_bluetooth.Userial.Port.{userial_vendor_set_baud}
use myir_bluetooth.World.{World, BdAddr, read_bd_addr, set_bd_addr, set_uart_baud_2}

-- The commands at the end; `null` says that the controller's own address is all zeros.
abbrev pub ending : (own null : Bool) → BdAddr → List Bytes
ending false null a = (bd_addr_command a).bytes ∷ []
ending true false a = (bare_command hci_read_local_bdaddr).bytes ∷ []
ending true true a = (bare_command hci_read_local_bdaddr).bytes ∷ (bd_addr_command a).bytes ∷ []

-- The controller's address is read with this result, if it is used at all.
abbrev pub Addressed : Config → Controller → Bool → Type 0
Addressed c k null =
    c.use_controller_bdaddr ≡ true → has_null_bdaddr (k.reply hci_read_local_bdaddr) ≡ some null

module _ (c : Config) (e : Env) (up : Willing e) (k : Controller) (path : Bytes) where
  -- The last reply is awaited.
  abbrev pub AtEnd : World → Type 0
  AtEnd w =
      Searching set_bd_addr true hci_vsc_write_bd_addr path w
      ⊎ ((c.use_controller_bdaddr ≡ true)
          × (has_null_bdaddr (k.reply hci_read_local_bdaddr) ≡ some false)
          × Searching read_bd_addr true hci_read_local_bdaddr path w)

  read_address-Sent :
      (addr : ℕ) (u : World)
      → Waits set_uart_baud_2 true none hci_vsc_update_baudrate u
      → c.use_controller_bdaddr ≡ true
      → Sent 0 0
          (bare_command hci_read_local_bdaddr).bytes
          read_bd_addr
          true
          none
          hci_read_local_bdaddr
          u
          (on_set_uart_baud_2 c e addr u)
  unfolding on_set_uart_baud_2 set_target_baud userial_vendor_set_baud or_complete
      hw_config_read_bdaddr send
  read_address-Sent addr u h own = ground (
    arith,
    up.accepts (set_target_baud c e u).trace hci_read_local_bdaddr
        (bare_command hci_read_local_bdaddr),
  )

  read_After :
      (w : World)
      → c.use_controller_bdaddr ≡ true
      → Searching set_uart_baud_2 true hci_vsc_update_baudrate path w
      → After c e up k
          (Searching read_bd_addr true hci_read_local_bdaddr path)
          ((bare_command hci_read_local_bdaddr).bytes ∷ [])
          w
  unfolding dispatch
  read_After w own (h, at, unnamed) = After-Next c e up k 0 path w at unnamed (
      turn-Sent c e up k 0 0 hci_vsc_update_baudrate w _ (omega arith) h refl
        (read_address-Sent (spare c e up k w) (served c e up k w) (served-Waits c e up k w h) own))

  -- The reply to the request for the address, where it is all zeros.
  null-Sent :
      (addr : ℕ) (u : World)
      → Waits read_bd_addr true none hci_read_local_bdaddr u
      → Sent 0 0
          (bd_addr_command u.bd_addr).bytes
          set_bd_addr
          true
          none
          hci_vsc_write_bd_addr
          u
          (on_read_bd_addr c e true addr u)
  unfolding on_read_bd_addr or_complete
  null-Sent addr u h = ground (
    arith,
    address-Sent c e up 0 {s = read_bd_addr} {f = none} {opcode = hci_read_local_bdaddr} true addr u
        h,
  )

  null_After :
      (w : World)
      → c.use_controller_bdaddr ≡ true
      → has_null_bdaddr (k.reply hci_read_local_bdaddr) ≡ some true
      → Searching read_bd_addr true hci_read_local_bdaddr path w
      → After c e up k
          (Searching set_bd_addr true hci_vsc_write_bd_addr path)
          ((bd_addr_command w.bd_addr).bytes ∷ [])
          w
  unfolding dispatch
  null_After w own null (h, at, unnamed) = After-Next c e up k 0 path w at unnamed (
      turn-Sent c e up k 0 0 hci_read_local_bdaddr w _ (omega arith) h (ground arith)
        (null-Sent (spare c e up k w) (served c e up k w) (served-Waits c e up k w h)))

  ending-After :
      (own null : Bool) (a : BdAddr) (w : World)
      → c.use_controller_bdaddr ≡ own
      → Addressed c k null
      → w.bd_addr ≡ a
      → Searching set_uart_baud_2 true hci_vsc_update_baudrate path w
      → After c e up k AtEnd (ending own null a) w
  ending-After false null a w own read from h =
      let (v, ran, there, adds) = address_After c e up k path w own h in
      rw (sym from) (v, ran, inl there, adds)
  ending-After true false a w own read from h =
      let (v, ran, there, adds) = read_After w own h in (v, ran, inr (own, read own, there), adds)
  ending-After true true a w own read from h =
      After-append c e up k {Q = AtEnd} ((bare_command hci_read_local_bdaddr).bytes ∷ [])
        ((bd_addr_command a).bytes ∷ []) w (read_After w own h)
        (λ v h₁ same.
          let (u, ran, there, adds) = null_After v own (read own) h₁ in
          rw (sym (same ∙ from)) (u, ran, inl there, adds))

  -- The commands at the end, in this configuration.
  pub end_After :
      (null : Bool) (a : BdAddr) (w : World)
      → Addressed c k null
      → w.bd_addr ≡ a
      → Searching set_uart_baud_2 true hci_vsc_update_baudrate path w
      → After c e up k AtEnd (ending c.use_controller_bdaddr null a) w
  end_After null a w read from h = ending-After c.use_controller_bdaddr null a w refl read from h

  -- The last reply.
  pub last_turn :
      (w : World)
      → AtEnd w
      → (w' : World) × (turn c e k w ≡ some w')
        × Configured (fw_reports w.trace) (commands w.trace) w'
  unfolding dispatch on_read_bd_addr complete close_fw free_evt
  last_turn w (inl h) = complete_turn c e up k path true w h
  last_turn w (inr (own, read, (h, at, unnamed))) =
      let u : World = served c e up k w in
      let r : World × Bool = complete c e (spare c e up k w) u in
      let runs =
        turn-dispatch c e up k hci_read_local_bdaddr w r.0 (omega arith) h (ground arith) in
      (free_evt c e (k.reply hci_read_local_bdaddr) r.0, runs, ground arith)
