-- ===== src/Link/Sending.antt =====
-- The cases of the `switch` that send one command, with a willing stack.
use myir_bluetooth.Common.{ℕ, Bool, true, false, Option, ◌≡◌, arith, ltb, if◌then◌else◌}
use myir_bluetooth.Config.{Config}
use myir_bluetooth.Hardware.Hci.{
  hci_reset, hci_read_local_name, hci_vsc_write_uart_clock_setting, hci_vsc_update_baudrate,
  hci_vsc_write_bd_addr, bare_command, bd_addr_command, uart_clock_command, baudrate_command,
  ms_delay,
}
use myir_bluetooth.Hardware.Setup.{
  send, hw_config_set_bdaddr, set_target_baud, on_set_uart_baud_1, end_download, on_set_uart_clock,
  on_start, on_set_uart_baud_2, or_complete,
}
use myir_bluetooth.Hardware.Naming.{look_up_fw_settlement_delay}
use myir_bluetooth.Link.Steps.{Waits, Sent}
use myir_bluetooth.Link.Peers.{Willing}
use myir_bluetooth.Platform.{Env}
use myir_bluetooth.Userial.Baud.{baud_115200}
use myir_bluetooth.Userial.Port.{userial_vendor_set_baud}
use myir_bluetooth.World.{
  World, HwState, start, set_uart_clock, set_uart_baud_1, read_local_name, set_uart_baud_2,
  set_bd_addr,
}

module _ (c : Config) (e : Env) (up : Willing e) where
  open up use {given, accepts}

  -- `HW_CFG_SET_UART_CLOCK`, and `HW_CFG_START` up to 3 Mbaud.
  pub baud-Sent :
      (fd : ℕ) {s : HwState} {f : Option ℕ} {opcode : ℕ} (b : Bool) (addr : ℕ) (u : World)
      → Waits s b f opcode u
      → Sent fd 0
          (baudrate_command c.uart_target_baud_rate).bytes
          (if b then set_uart_baud_2 else set_uart_baud_1)
          b
          f
          hci_vsc_update_baudrate
          u
          (on_set_uart_clock c e addr u)
  unfolding on_set_uart_clock send
  baud-Sent fd b addr u h =
      ground
        (arith, accepts u.trace hci_vsc_update_baudrate (baudrate_command c.uart_target_baud_rate))

  pub clock-Sent :
      (fd : ℕ) {f : Option ℕ} {opcode : ℕ} (b : Bool) (addr : ℕ) (u : World)
      → Waits start b f opcode u
      → ltb 3_000_000 c.uart_target_baud_rate ≡ true
      → Sent fd 0 uart_clock_command.bytes set_uart_clock b f hci_vsc_write_uart_clock_setting u
          (on_start c e addr u)
  unfolding on_start send
  clock-Sent fd b addr u h fast =
      ground (arith, accepts u.trace hci_vsc_write_uart_clock_setting uart_clock_command)

  pub name-Sent :
      (fd : ℕ) {f : Option ℕ} {opcode : ℕ} (b : Bool) (addr : ℕ) (u : World)
      → Waits set_uart_baud_1 b f opcode u
      → Sent fd 0
          (bare_command hci_read_local_name).bytes
          read_local_name
          b
          f
          hci_read_local_name
          u
          (on_set_uart_baud_1 c e addr u)
  unfolding on_set_uart_baud_1 set_target_baud userial_vendor_set_baud send
  name-Sent fd b addr u h = ground (
    arith,
    accepts (set_target_baud c e u).trace hci_read_local_name (bare_command hci_read_local_name),
  )

  -- The reset at the end of a download, from a state with any file.
  pub reset-Sent :
      (fd : ℕ) {s : HwState} {f : Option ℕ} {opcode : ℕ} (b : Bool) (addr : ℕ) (u : World)
      → Waits s b f opcode u
      → Sent fd 0 (bare_command hci_reset).bytes start true f hci_reset u (end_download c e addr u)
  unfolding end_download userial_vendor_set_baud ms_delay send
  reset-Sent fd b addr u h =
      let w₁ : World = userial_vendor_set_baud c e baud_115200 u in
      let w₂ : World = record w₁ { hw = record w₁.hw { f_set_baud_2 = true } } in
      let w₃ : World = ms_delay (look_up_fw_settlement_delay c w₂.hw) w₂ in
      ground (arith, accepts w₃.trace hci_reset (bare_command hci_reset))

  pub address-Sent :
      (fd : ℕ) {s : HwState} {f : Option ℕ} {opcode : ℕ} (b : Bool) (addr : ℕ) (u : World)
      → Waits s b f opcode u
      → Sent fd 0
          (bd_addr_command u.bd_addr).bytes
          set_bd_addr
          b
          f
          hci_vsc_write_bd_addr
          u
          (hw_config_set_bdaddr c e addr u)
  unfolding hw_config_set_bdaddr send
  address-Sent fd b addr u h =
      ground (arith, accepts u.trace hci_vsc_write_bd_addr (bd_addr_command u.bd_addr))

  pub set_address-Sent :
      (fd : ℕ) {f : Option ℕ} {opcode : ℕ} (b : Bool) (addr : ℕ) (u : World)
      → Waits set_uart_baud_2 b f opcode u
      → c.use_controller_bdaddr ≡ false
      → Sent fd 0
          (bd_addr_command u.bd_addr).bytes
          set_bd_addr
          b
          f
          hci_vsc_write_bd_addr
          u
          (on_set_uart_baud_2 c e addr u)
  unfolding on_set_uart_baud_2 set_target_baud userial_vendor_set_baud or_complete
  set_address-Sent fd {f} {opcode} b addr u h own = ground (
    arith,
    address-Sent fd {s = set_uart_baud_2} {f = f} {opcode = opcode} b addr (set_target_baud c e u),
  )
