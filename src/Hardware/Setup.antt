-- ===== src/Hardware/Setup.antt =====
-- The configuration of the controller in libbt/src/hardware.c: `hw_config_start` and the handler
-- `hw_config_cback`, one definition for each case of its `switch`.
use myir_bluetooth.Common.{
  ℕ, suc, ◌+◌, ◌-◌, Bool, true, false, ◌||◌, Option, none, some, ◌∷◌, ◌==◌, ltb, leb, if◌then◌else◌,
  Bytes, length, drop, ◌>>=◌,
}
use myir_bluetooth.Config.{Config}
use myir_bluetooth.Platform.{
  Env, Evt, Packet, Cback, success, dealloc, fwcfg_cb, close_file, read_file,
}
use myir_bluetooth.Hardware.Hci.{
  hci_reset, hci_read_local_name, hci_vsc_download_minidrv, hci_vsc_write_uart_clock_setting,
  hci_vsc_update_baudrate, hci_vsc_write_bd_addr, hci_vsc_launch_ram, hci_read_local_bdaddr,
  hci_cmd_preamble_size, hci_evt_cmd_cmpl_local, stream_to_uint16, packet, bare_command,
  bd_addr_command, uart_clock_command, baudrate_command, ms_delay,
}
use myir_bluetooth.Hardware.Patch.{Found, hw_config_findpatch}
use myir_bluetooth.Userial.Baud.{line_speed_to_userial_baud, baud_115200}
use myir_bluetooth.Userial.Port.{userial_vendor_set_baud}
use myir_bluetooth.World.{
  World, HwState, idle, start, set_uart_clock, set_uart_baud_1, read_local_name, dl_minidriver,
  dl_fw_patch, set_uart_baud_2, set_bd_addr, read_bd_addr, log, call_xmit, call_open,
}
use myir_bluetooth.Hardware.Naming.{
  ChipName, c_string, chip_name, look_up_fw_settlement_delay, upcase_name,
}

abbrev pub set_state : HwState → World → World
set_state s w = record w { hw = record w.hw { state = s } }

abbrev pub set_fw_fd : Option ℕ → World → World
set_fw_fd fd w = record w { hw = record w.hw { fw_fd = fd } }

-- `if (hw_cfg_cb.fw_fd != -1) { close(...); hw_cfg_cb.fw_fd = -1; }`.
unfoldable pub close_fw : World → World
close_fw w = elim w.hw.fw_fd [ none ↦ w | some fd ↦ set_fw_fd none (log (close_file fd) w) ]

module _ (c : Config) (e : Env) where
  -- `xmit_cb` with `hw_config_cback`, in a new state.
  unfoldable pub send : HwState → ℕ → ℕ → Packet → World → World × Bool
  send s opcode addr p w = call_xmit e opcode addr p Cback.hw_config (set_state s w)

  unfoldable pub hw_config_set_bdaddr : ℕ → World → World × Bool
  hw_config_set_bdaddr addr w =
      send set_bd_addr hci_vsc_write_bd_addr addr (bd_addr_command w.bd_addr) w

  unfoldable pub hw_config_read_bdaddr : ℕ → World → World × Bool
  hw_config_read_bdaddr addr w =
      send read_bd_addr hci_read_local_bdaddr addr (bare_command hci_read_local_bdaddr) w

  unfoldable pub set_target_baud : World → World
  set_target_baud = userial_vendor_set_baud c e (line_speed_to_userial_baud c.uart_target_baud_rate)

  -- `case HW_CFG_SET_UART_BAUD_1`.
  unfoldable pub on_set_uart_baud_1 : ℕ → World → World × Bool
  on_set_uart_baud_1 addr w =
      send read_local_name hci_read_local_name addr (bare_command hci_read_local_name)
        (set_target_baud w)

  -- In `case HW_CFG_READ_LOCAL_NAME`, once the search for the patch file is over.
  unfoldable pub on_patch_found : ℕ → Found → World × Bool
  on_patch_found addr r =
      if r.found
      then (let (w₁, fd) = call_open e r.text r.world in
          elim fd [
            | none ↦ (set_fw_fd none w₁, false)
            | some n ↦
                send dl_minidriver hci_vsc_download_minidrv addr
                  (bare_command hci_vsc_download_minidrv) (set_fw_fd (some n) w₁)
          ])
      else (r.world, false)

  unfoldable pub or_set_bdaddr : ℕ → World × Bool → World × Bool
  or_set_bdaddr addr r = if r.1 then r else hw_config_set_bdaddr addr r.0

  -- The name in the event's buffer, in upper case, and the search for its patch file, which
  -- writes behind `p_name` in that buffer.
  unfoldable pub search_by_name : Bytes → World → Option Found
  search_by_name raw w =
      let name : Bytes = c_string raw in
      let chip : ChipName = chip_name c name in
      let room : ℕ = length raw - chip.offset in
      let w₁ : World = record w { hw = record w.hw { local_chip_name = chip.stored } } in
      if leb chip.written room
      then hw_config_findpatch e (suc (length chip.p_name)) room chip.p_name w₁
      else none

  -- `case HW_CFG_READ_LOCAL_NAME`.
  unfoldable pub on_read_local_name : Evt → ℕ → World → Option (World × Bool)
  on_read_local_name v addr w = do
    raw ← upcase_name 0 (drop hci_evt_cmd_cmpl_local v.bytes)
    r ← search_by_name raw w
    some (or_set_bdaddr addr (on_patch_found addr r))

  -- Behind the `if` of `case HW_CFG_DL_FW_PATCH`: the file is at its end, or was given up.
  unfoldable pub end_download : ℕ → World → World × Bool
  end_download addr w =
      let w₁ : World = userial_vendor_set_baud c e baud_115200 w in
      let w₂ : World = record w₁ { hw = record w₁.hw { f_set_baud_2 = true } } in
      let w₃ : World = ms_delay (look_up_fw_settlement_delay c w₂.hw) w₂ in
      send start hci_reset addr (bare_command hci_reset) w₃

  unfoldable pub call_read : ℕ → ℕ → World → World × Option Bytes
  call_read fd count w =
      let r : Option Bytes = e.read_answer w.trace fd count in (log (read_file fd count r) w, r)

  -- The second `read`, of the payload behind a whole preamble, and the command.
  unfoldable pub send_record : ℕ → Bytes → ℕ → World → World × Bool
  send_record fd (lo ∷ hi ∷ n ∷ rest) addr w =
      let (w₁, r) = call_read fd n w in
      elim r [
        | none ↦ end_download addr (close_fw w₁)
        | some payload ↦
            call_xmit e (stream_to_uint16 lo hi) addr
              (packet (length (lo ∷ hi ∷ n ∷ rest) + length payload) (lo ∷ hi ∷ n ∷ payload))
              Cback.hw_config w₁
      ]
  send_record fd _ addr w = end_download addr (close_fw w)

  -- `case HW_CFG_DL_FW_PATCH`, where `opcode` is that of the event.
  unfoldable pub on_dl_fw_patch : ℕ → ℕ → World → World × Bool
  on_dl_fw_patch opcode addr w = elim w.hw.fw_fd [
    | none ↦ end_download addr w
    | some fd ↦
        let (w₁, r) = call_read fd hci_cmd_preamble_size w in
        elim r [
          | none ↦ end_download addr (close_fw w₁)
          | some preamble ↦
              if ltb (length preamble) hci_cmd_preamble_size || opcode == hci_vsc_launch_ram
              then end_download addr (close_fw w₁)
              else send_record fd preamble addr w₁
        ]
  ]

  -- `case HW_CFG_DL_MINIDRIVER`, which falls through.
  unfoldable pub on_dl_minidriver : ℕ → ℕ → World → World × Bool
  on_dl_minidriver opcode addr w =
      on_dl_fw_patch opcode addr (set_state dl_fw_patch (ms_delay 50 w))

  -- `case HW_CFG_SET_UART_CLOCK`.
  unfoldable pub on_set_uart_clock : ℕ → World → World × Bool
  on_set_uart_clock addr w =
      send (if w.hw.f_set_baud_2 then set_uart_baud_2 else set_uart_baud_1) hci_vsc_update_baudrate
        addr (baudrate_command c.uart_target_baud_rate) w

  -- `case HW_CFG_START`, which falls through up to 3 Mbaud.
  unfoldable pub on_start : ℕ → World → World × Bool
  on_start addr w =
      if ltb 3_000_000 c.uart_target_baud_rate
      then send set_uart_clock hci_vsc_write_uart_clock_setting addr uart_clock_command w
      else on_set_uart_clock addr w

  -- `case HW_CFG_SET_BD_ADDR`, and the end of `case HW_CFG_READ_BD_ADDR`.
  unfoldable pub complete : ℕ → World → World × Bool
  complete addr w =
      (close_fw (set_state idle (log (fwcfg_cb success) (log (dealloc addr) w))), true)

  unfoldable pub or_complete : ℕ → World × Bool → World × Bool
  or_complete addr r = if r.1 then r else complete addr r.0

  -- `case HW_CFG_SET_UART_BAUD_2`, which falls through if the command is not accepted.
  unfoldable pub on_set_uart_baud_2 : ℕ → World → World × Bool
  on_set_uart_baud_2 addr w =
      let w₁ : World = set_target_baud w in
      or_complete addr (
        if c.use_controller_bdaddr
        then hw_config_read_bdaddr addr w₁
        else hw_config_set_bdaddr addr w₁)

  -- `case HW_CFG_READ_BD_ADDR`; `null` says that the six bytes are 0.
  unfoldable pub on_read_bd_addr : Bool → ℕ → World → World × Bool
  on_read_bd_addr null addr w =
      if null then or_complete addr (hw_config_set_bdaddr addr w) else complete addr w
