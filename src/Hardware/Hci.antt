-- ===== src/Hardware/Hci.antt =====
-- HCI commands and events, as libbt/src/hardware.c builds and reads them.
use myir_bluetooth.Common.{
  ℕ, ◌+◌, ◌*◌, ◌/◌, ◌%◌, ◌^◌, Option, some, [], ◌∷◌, Bytes, get_elem?, ◌>>=◌, ◌==◌, if◌then◌else◌,
}
use myir_bluetooth.Platform.{Packet, Evt, nanosleep, stack_to_hc_hci_cmd}
use myir_bluetooth.World.{World, BdAddr, log}

abbrev pub hci_reset : ℕ
hci_reset = 0x0C03

abbrev pub hci_vsc_write_uart_clock_setting : ℕ
hci_vsc_write_uart_clock_setting = 0xFC45

abbrev pub hci_vsc_update_baudrate : ℕ
hci_vsc_update_baudrate = 0xFC18

abbrev pub hci_read_local_name : ℕ
hci_read_local_name = 0x0C14

abbrev pub hci_vsc_download_minidrv : ℕ
hci_vsc_download_minidrv = 0xFC2E

abbrev pub hci_vsc_write_bd_addr : ℕ
hci_vsc_write_bd_addr = 0xFC01

abbrev pub hci_vsc_write_sleep_mode : ℕ
hci_vsc_write_sleep_mode = 0xFC27

abbrev pub hci_vsc_write_sco_pcm_int_param : ℕ
hci_vsc_write_sco_pcm_int_param = 0xFC1C

abbrev pub hci_vsc_write_pcm_data_format_param : ℕ
hci_vsc_write_pcm_data_format_param = 0xFC1E

abbrev pub hci_vsc_write_i2spcm_interface_param : ℕ
hci_vsc_write_i2spcm_interface_param = 0xFC6D

abbrev pub hci_vsc_enable_wbs : ℕ
hci_vsc_enable_wbs = 0xFC7E

abbrev pub hci_vsc_launch_ram : ℕ
hci_vsc_launch_ram = 0xFC4E

abbrev pub hci_read_local_bdaddr : ℕ
hci_read_local_bdaddr = 0x1009

abbrev pub hci_cmd_max_len : ℕ
hci_cmd_max_len = 258

abbrev pub hci_cmd_preamble_size : ℕ
hci_cmd_preamble_size = 3

abbrev pub hci_evt_cmd_cmpl_opcode : ℕ
hci_evt_cmd_cmpl_opcode = 3

abbrev pub hci_evt_cmd_cmpl_status_ret_byte : ℕ
hci_evt_cmd_cmpl_status_ret_byte = 5

-- LOCAL_NAME_STRING and LOCAL_BDADDR_ARRAY.
abbrev pub hci_evt_cmd_cmpl_local : ℕ
hci_evt_cmd_cmpl_local = 6

abbrev pub local_name_buffer_len : ℕ
local_name_buffer_len = 32

-- `UINT16_TO_STREAM` and `UINT32_TO_STREAM`.
abbrev pub uint16_to_stream : ℕ → Bytes → Bytes
uint16_to_stream u rest = (u % 256) ∷ (u / 256 % 256) ∷ rest

abbrev pub uint32_to_stream : ℕ → Bytes → Bytes
uint32_to_stream u rest =
    (u % 256) ∷ (u / 2 ^ 8 % 256) ∷ (u / 2 ^ 16 % 256) ∷ (u / 2 ^ 24 % 256) ∷ rest

-- `STREAM_TO_UINT16`.
abbrev pub stream_to_uint16 : ℕ → ℕ → ℕ
stream_to_uint16 lo hi = lo + hi * 256

-- A command buffer as it is handed to `xmit_cb`: `len` as the code sets it, and the bytes written.
abbrev pub packet : ℕ → Bytes → Packet
packet n bytes = record {
  event = stack_to_hc_hci_cmd;
  offset = 0;
  layer_specific = 0;
  len = n;
  bytes = bytes;
}

-- `HCI_RESET` and the other commands with no parameter.
abbrev pub bare_command : ℕ → Packet
bare_command opcode = packet hci_cmd_preamble_size (uint16_to_stream opcode (0 ∷ []))

-- The command of `hw_config_set_bdaddr`: the address goes last byte first.
abbrev pub bd_addr_command : BdAddr → Packet
bd_addr_command a =
    packet (hci_cmd_preamble_size + 6)
      (uint16_to_stream hci_vsc_write_bd_addr (6 ∷ a.b5 ∷ a.b4 ∷ a.b3 ∷ a.b2 ∷ a.b1 ∷ a.b0 ∷ []))

abbrev pub uart_clock_command : Packet
uart_clock_command =
    packet (hci_cmd_preamble_size + 1)
      (uint16_to_stream hci_vsc_write_uart_clock_setting (1 ∷ 1 ∷ []))

abbrev pub baudrate_command : ℕ → Packet
baudrate_command rate =
    packet (hci_cmd_preamble_size + 6)
      (uint16_to_stream hci_vsc_update_baudrate (6 ∷ 0 ∷ 0 ∷ uint32_to_stream rate []))

-- The status and the opcode of a command complete event; `none` reads past the buffer.
abbrev pub evt_status : Evt → Option ℕ
evt_status v = get_elem? v.bytes hci_evt_cmd_cmpl_status_ret_byte

unfoldable pub evt_opcode : Evt → Option ℕ
evt_opcode v = do
  lo ← get_elem? v.bytes hci_evt_cmd_cmpl_opcode
  hi ← get_elem? v.bytes (hci_evt_cmd_cmpl_opcode + 1)
  some (stream_to_uint16 lo hi)

-- `ms_delay`.
unfoldable pub ms_delay : ℕ → World → World
ms_delay timeout w =
    if timeout == 0 then w else log (nanosleep (timeout / 1000) (1_000_000 * (timeout % 1000))) w
